-- ===== src/Net/Buffer/Refines.antt =====
-- A Buffer over any sequence of calls, beside a plain queue of bytes.
use thread_library.Prelude.{
  ℕ, ◌+◌, ◌-◌, ◌≤◌, ◌≡◌, refl, ap₂, subst, List, [], ◌∷◌, ◌++◌, arith, length, take, drop, ltb,
  Bool-cases, inl, inr, lt→ltb, le→ltb, if◌then◌else◌, false, dec_lt,
}
use thread_library.Prelude.Outcome.{Outcome, ok, fatal, thrown, fault, Returns, Returns-mono, ◌>>=◌}
use thread_library.Net.Buffer.{
  Buffer, cheap_prepend, max_size, append, retrieve, retrieve_all, retrieve_as_string,
  retrieve_all_as_string, unwrite, readable_bytes,
}
use thread_library.Net.Buffer.Contents.{
  IsValid, contents, Holds, readable_bytes_lem, length-contents,
}
use thread_library.Net.Buffer.Fifo.{append-Appends, retrieve_all-Holds, retrieve-Holds}
use thread_library.Net.Buffer.Reads.{
  retrieve_as_string_lem, retrieve_all_as_string_lem, unwrite_lem,
}

pub data Call : Type 0 where
  appends : List ℕ → Call
  retrieves : ℕ → Call
  retrieves_all : Call
  takes : ℕ → Call
  takes_all : Call
  unwrites : ℕ → Call

-- A call on the buffer, with the bytes that it returns.
unfoldable call : Call → Buffer → Outcome (List ℕ × Buffer)
call (appends ds) b = append b ds >>= λ c. ok ([], c)
call (retrieves n) b = ok ([], retrieve b n)
call retrieves_all b = ok ([], retrieve_all b)
call (takes n) b = let r = retrieve_as_string b n in ok (r.1, r.0)
call takes_all b = let r = retrieve_all_as_string b in ok (r.1, r.0)
call (unwrites n) b = unwrite b n >>= λ c. ok ([], c)

unfoldable pub calls : List Call → Buffer → Outcome (List (List ℕ) × Buffer)
unfolding call
calls [] b = ok ([], b)
calls (k ∷ ks) b = call k b >>= λ r. calls ks r.1 >>= λ s. ok (r.0 ∷ s.0, s.1)

-- The same call on a queue of bytes.
unfoldable replay_call : Call → List ℕ → Outcome (List ℕ × List ℕ)
replay_call (appends ds) q = ok ([], q ++ ds)
replay_call (retrieves n) q = ok ([], drop n q)
replay_call retrieves_all q = ok ([], [])
replay_call (takes n) q = ok (take n q, drop n q)
replay_call takes_all q = ok (q, [])
replay_call (unwrites n) q = if ltb (length q) n then fatal else ok ([], take (length q - n) q)

unfoldable pub replay : List Call → List ℕ → Outcome (List (List ℕ) × List ℕ)
unfolding replay_call
replay [] q = ok ([], q)
replay (k ∷ ks) q = replay_call k q >>= λ r. replay ks r.1 >>= λ s. ok (r.0 ∷ s.0, s.1)

-- How many bytes the calls append.
abbrev demand_of : Call → ℕ
demand_of (appends ds) = length ds
demand_of _ = 0

abbrev demand : List Call → ℕ
demand [] = 0
demand (k ∷ ks) = demand_of k + demand ks

-- Both abort, or both return the same, with a valid buffer that holds the queue, and a writer that is
-- no further than `n`.
abbrev pub Agrees : {A : Type 0} → ℕ → Outcome (A × Buffer) → Outcome (A × List ℕ) → Type 0
Agrees n (ok (o, b)) (ok (p, q)) = (o ≡ p) × Holds q b × (b.writer ≤ n)
Agrees n fatal fatal = Unit
Agrees n _ _ = ⊥

Agrees->>= :
    (n : ℕ) (m : Outcome Buffer) (q : List ℕ)
    → Returns m (λ c. Holds q c × (c.writer ≤ n))
    → Agrees {A = List ℕ} n (m >>= λ c. ok ([], c)) (ok ([], q))
Agrees->>= n (ok c) q h = (refl, h.0, h.1)
Agrees->>= n fatal q h = absurd h
Agrees->>= n thrown q h = absurd h
Agrees->>= n fault q h = absurd h

retrieve-writer :
    (b : Buffer) (n m : ℕ) → b.writer ≤ m → cheap_prepend ≤ m → (retrieve b n).writer ≤ m
unfolding retrieve retrieve_all
retrieve-writer b n m h k = elim (Bool-cases (ltb n (readable_bytes b))) [
  | inl e ↦ rw e h
  | inr e ↦ rw e k
]

retrieve_all-writer : (b : Buffer) (m : ℕ) → cheap_prepend ≤ m → (retrieve_all b).writer ≤ m
unfolding retrieve_all
retrieve_all-writer b m k = k

as_string-writer :
    (b : Buffer) (n m : ℕ)
    → b.writer ≤ m
    → cheap_prepend ≤ m
    → (retrieve_as_string b n).0.writer ≤ m
unfolding retrieve_as_string
as_string-writer b n m h k = retrieve-writer b n m h k

all_as_string-writer :
    (b : Buffer) (m : ℕ)
    → b.writer ≤ m
    → cheap_prepend ≤ m
    → (retrieve_all_as_string b).0.writer ≤ m
unfolding retrieve_all_as_string
all_as_string-writer b m h k = as_string-writer b (readable_bytes b) m h k

unwrite-Agrees :
    (b : Buffer) (len n : ℕ)
    → IsValid b
    → b.writer ≤ n
    → len ≤ length (contents b)
    → Returns
        (unwrite b len)
        (λ c. Holds (take (length (contents b) - len) (contents b)) c × (c.writer ≤ n))
unfolding unwrite
unwrite-Agrees b len n v w h =
    let held = (unwrite_lem b len v).0 h in
    let some_held : ltb (readable_bytes b) len ≡ false =
      le→ltb _ _ (omega (arith, h, readable_bytes_lem b v, length-contents b v)) in
    rw some_held (rw some_held at held, omega (arith, h, length-contents b v))

call-Agrees :
    (k : Call) (b : Buffer) (n : ℕ)
    → IsValid b
    → b.writer ≤ n
    → cheap_prepend ≤ n
    → n + demand_of k ≤ max_size
    → Agrees (n + demand_of k) (call k b) (replay_call k (contents b))
unfolding call replay_call
call-Agrees (appends ds) b n v w c m = Agrees->>= (n + length ds) (append b ds) (contents b ++ ds) (
    Returns-mono (append b ds) _ _ (append-Appends b ds v (omega arith))
      (λ d p. (p.0, omega (arith, p.1))))
call-Agrees (retrieves len) b n v w c m =
    (refl, retrieve-Holds b len v, retrieve-writer b len (n + 0) (omega arith) (omega arith))
call-Agrees retrieves_all b n v w c m = (refl, retrieve_all-Holds b v, reset)
  where
    reset : (retrieve_all b).writer ≤ n + 0
    reset = retrieve_all-writer b (n + 0) (omega arith)
call-Agrees (takes len) b n v w c m = (
  (retrieve_as_string_lem b len v).0,
  (retrieve_as_string_lem b len v).1,
  as_string-writer b len (n + 0) (omega arith) (omega arith),
)
call-Agrees takes_all b n v w c m = (
  (retrieve_all_as_string_lem b v).0,
  (retrieve_all_as_string_lem b v).1,
  all_as_string-writer b (n + 0) (omega arith) (omega arith),
)
call-Agrees (unwrites len) b n v w c m = elim (dec_lt (length (contents b)) len) [
  | yes over ↦ rw ((unwrite_lem b len v).1 over) (rw (lt→ltb _ _ over) tt)
  | no held ↦
      let fits : ltb (length (contents b)) len ≡ false = le→ltb _ _ (omega (arith, held)) in
      rw fits (
        Agrees->>= (n + 0) (unwrite b len) (take (length (contents b) - len) (contents b))
          (unwrite-Agrees b len (n + 0) v (omega arith) (omega (arith, held))))
]

cons-Agrees :
    (n : ℕ) (o p : List ℕ)
    → o ≡ p
    → (x : Outcome (List (List ℕ) × Buffer)) (y : Outcome (List (List ℕ) × List ℕ)) → Agrees n x y
    → Agrees n (x >>= λ s. ok (o ∷ s.0, s.1)) (y >>= λ s. ok (p ∷ s.0, s.1))
cons-Agrees n o p e (ok x) (ok y) h = (ap₂ (λ u v. u ∷ v) e h.0, h.1, h.2)
cons-Agrees n o p e fatal fatal h = tt
cons-Agrees n o p e x y h = absurd h

then-Agrees :
    (ks : List Call) (n m : ℕ)
    → ((b : Buffer) → IsValid b → b.writer ≤ n → Agrees m (calls ks b) (replay ks (contents b)))
    → (x : Outcome (List ℕ × Buffer)) (y : Outcome (List ℕ × List ℕ)) → Agrees n x y
    → Agrees m
        (x >>= λ r. calls ks r.1 >>= λ s. ok (r.0 ∷ s.0, s.1))
        (y >>= λ r. replay ks r.1 >>= λ s. ok (r.0 ∷ s.0, s.1))
then-Agrees ks n m rest (ok (o, b)) (ok (p, q)) h =
    cons-Agrees m o p h.0 (calls ks b) (replay ks q)
      (subst (λ q. Agrees m (calls ks b) (replay ks q)) h.1.held (rest b h.1.valid h.2))
then-Agrees ks n m rest fatal fatal h = tt
then-Agrees ks n m rest x y h = absurd h

-- A valid buffer refines a plain queue of bytes over any sequence of calls of `Append`, `Retrieve`,
-- `RetrieveAll`, `RetrieveAsString`, `RetrieveAllAsString` and `Unwrite` for which the vector may grow
-- far enough: both abort, or both return the same bytes call by call, with a valid buffer that holds
-- what the queue does.
pub calls-Agrees :
    (ks : List Call) (b : Buffer) (n : ℕ)
    → IsValid b
    → b.writer ≤ n
    → cheap_prepend ≤ n
    → n + demand ks ≤ max_size
    → Agrees (n + demand ks) (calls ks b) (replay ks (contents b))
unfolding calls replay
calls-Agrees [] b n v w c m = (refl, record { valid = v; held = refl }, omega arith)
calls-Agrees (k ∷ ks) b n v w c m =
    let e : n + demand_of k + demand ks ≡ n + (demand_of k + demand ks) = omega arith in
    subst (λ t. Agrees t (calls (k ∷ ks) b) (replay (k ∷ ks) (contents b))) e
      (then-Agrees ks (n + demand_of k) (n + demand_of k + demand ks)
        (λ d u x. calls-Agrees ks d (n + demand_of k) u x (omega arith) (omega arith)) (call k b)
        (replay_call k (contents b)) (call-Agrees k b n v w c (omega arith)))
