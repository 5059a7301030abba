-- ===== src/Log/AsyncLogging/Runs/Whole.antt =====
-- What the log has been given after any run.
use thread_library.Prelude.{
  ℕ, ◌<◌, ◌≡◌, refl, sym, ap, ◌∙◌, Bool, true, false, ◌||◌, List, [], ◌∷◌, ◌++◌, All, length, leb,
  ◌⊎◌, inl, inr, append-nil, append_assoc, subst, Bool-cases, arith,
}
use thread_library.Prelude.Outcome.{
  Outcome, ok, fatal, thrown, fault, Returns, Returns->>=, Returns-mono, ◌>>=◌,
}
use thread_library.Log.FixedBuffer
use thread_library.Log.AsyncLogging.{
  Front, Back, create, start_thread, append_line, collect, write_out, new_buffer, large_buffer,
  max_pending,
}
use thread_library.Log.AsyncLogging.Stream.{FrontInv, pending, append_line-Logged, create-FrontInv}
use thread_library.Log.AsyncLogging.Writer.{
  BackInv, Round, joined, collect-write_out, start_thread-BackInv,
}
use thread_library.Log.AsyncLogging.Runs.{
  WriterPhase, tests, collects, writes, ended, Site, Event, appends, advances, stops, started,
  advance, occur, run, finish_round,
}

-- All that was given stands behind `base` in order, unless buffers were shed.
abbrev pub Whole : Site → List ℕ → Type 0
Whole s base = (s.dropped ≡ true) ⊎ (base ++ pending s.front ≡ s.given)

-- What the writer leaves when it ends the round.
abbrev Due : Back → Bool → List ℕ → Type 0
Due b dropped base =
    (message : List ℕ)
    → Returns (write_out message b) (λ c. BackInv c × ((dropped ≡ true) ⊎ (joined c.output ≡ base)))

abbrev Owns : WriterPhase → Site → Type 0
Owns writes s = (base : List ℕ) × Due s.back s.dropped base × Whole s base
Owns _ s = BackInv s.back × Whole s (joined s.back.output)

record IsSound (s : Site) : Type 0 where
  front : FrontInv s.front
  own : Owns s.phase s

grows :
    (s : Site) (base line : List ℕ) (f : Front)
    → pending f ≡ pending s.front ++ line
    → Whole s base
    → Whole (record s { front = f; given = s.given ++ line }) base
grows s base line f e (inl h) = inl h
grows s base line f e (inr h) =
    inr (
      ap (λ x. base ++ x) e
      ∙ sym (append_assoc base (pending s.front) line)
      ∙ ap (λ x. x ++ line) h)

appends-Owns :
    (p : WriterPhase) (s : Site) (line : List ℕ) (f : Front)
    → pending f ≡ pending s.front ++ line
    → Owns p s
    → Owns p (record s { front = f; given = s.given ++ line })
appends-Owns tests s line f e (b, w) = (b, grows s (joined s.back.output) line f e w)
appends-Owns collects s line f e (b, w) = (b, grows s (joined s.back.output) line f e w)
appends-Owns writes s line f e (base, d, w) = (base, d, grows s base line f e w)
appends-Owns ended s line f e (b, w) = (b, grows s (joined s.back.output) line f e w)

-- What a round that sheds nothing leaves to the callers.
taken :
    (s : Site) (f : Front) (more : Bool)
    → pending f ≡ []
    → (s.dropped || more) ≡ false
    → Whole s (joined s.back.output)
    → (joined s.back.output ++ pending s.front) ++ pending f ≡ s.given
taken s f more e h (inl w) = absurd (ground (arith, h, w))
taken s f more e h (inr w) =
    ap (λ x. (joined s.back.output ++ pending s.front) ++ x) e
    ∙ append-nil (joined s.back.output ++ pending s.front)
    ∙ w

collects-Owns :
    (s : Site) (r : Front × Back)
    → pending r.0 ≡ []
    → ((message : List ℕ) → Returns (write_out message r.1) (Round s.front s.back))
    → Whole s (joined s.back.output)
    → Owns writes (record s {
      front = r.0;
      back = r.1;
      phase = writes;
      dropped = s.dropped || leb max_pending (length s.front.buffers);
    })
collects-Owns s r e k w =
    let base = joined s.back.output ++ pending s.front in
    elim (Bool-cases (s.dropped || leb max_pending (length s.front.buffers))) [
      | inl h ↦ rw h (
        base,
        (λ m. Returns-mono (write_out m r.1) _ _ (k m) (λ c q. (q.inv, inl refl))),
        inl refl,
      )
      | inr h ↦ rw h (
        base,
        (λ m.
            Returns-mono (write_out m r.1) _ _ (k m)
              (λ c q. (q.inv, inr (q.all (ground (arith, h)))))),
        inr (taken s r.0 _ e h w),
      )
    ]

at_any :
    {A : Type 0} (x : Outcome A) (P : List ℕ → A → Type 0)
    → ((m : List ℕ) → Returns x (P m))
    → Returns x (λ a. (m : List ℕ) → P m a)
at_any (ok a) P h = h
at_any fatal P h = h []
at_any thrown P h = h []
at_any fault P h = h []

joins :
    (s : Site) (base : List ℕ) (c : Back)
    → (s.dropped ≡ true) ⊎ (joined c.output ≡ base)
    → Whole s base
    → Whole s (joined c.output)
joins s base c (inl h) w = inl h
joins s base c (inr h) w = subst (Whole s) (sym h) w

advance-IsSound :
    (p : WriterPhase) (message : List ℕ) (s : Site)
    → s.phase ≡ p
    → FrontInv s.front
    → Owns p s
    → Returns (advance p message s) IsSound
unfolding advance
advance-IsSound tests message s e f o = elim (Bool-cases s.running) [
  | inl h ↦ rw h (record { front = f; own = o })
  | inr h ↦ rw h (record { front = f; own = o })
]
advance-IsSound collects message s e f (b, w) =
    Returns->>= (collect s.front s.back) _ _ IsSound
      (at_any (collect s.front s.back) _ (λ m. collect-write_out s.front s.back m f b))
      (λ r k. record { front = (k []).0; own = collects-Owns s r (k []).1 (λ m. (k m).2) w })
advance-IsSound writes message s e f (base, d, w) =
    Returns->>= (write_out message s.back) _ _ IsSound (d message)
      (λ c k. record { front = f; own = (k.0, joins s base c k.1 w) })
advance-IsSound ended message s e f o = record { front = f; own = subst (λ p. Owns p s) (sym e) o }

-- Every line is shorter than a buffer.
abbrev IsShort : Event → Type 0
IsShort (appends line) = length line < large_buffer
IsShort _ = Unit

occur-IsSound : (e : Event) (s : Site) → IsShort e → IsSound s → Returns (occur e s) IsSound
unfolding occur
occur-IsSound (appends line) s short h =
    Returns->>= (append_line line s.front) _ _ IsSound
      (append_line-Logged s.front line h.front short)
      (λ f k. record { front = k.inv; own = appends-Owns s.phase s line f k.all h.own })
occur-IsSound (advances message) s short h = advance-IsSound s.phase message s refl h.front h.own
occur-IsSound stops s short h = record { front = h.front; own = by_phase s.phase h.own }
  where
    by_phase : (p : WriterPhase) → Owns p s → Owns p (record s { running = false })
    by_phase tests o = o
    by_phase collects o = o
    by_phase writes o = o
    by_phase ended o = o

run-IsSound : (es : List Event) (s : Site) → All IsShort es → IsSound s → Returns (run es s) IsSound
unfolding run
run-IsSound [] s a h = h
run-IsSound (e ∷ es) s (short, a) h =
    Returns->>= (occur e s) (run es) IsSound IsSound (occur-IsSound e s short h)
      (λ t k. run-IsSound es t a k)

finish_round-Whole :
    (message : List ℕ) (p : WriterPhase) (s : Site)
    → s.phase ≡ p
    → Owns p s
    → Returns (finish_round message s) (λ t. Whole t (joined t.back.output))
unfolding finish_round advance
finish_round-Whole message tests s e (b, w) = rw (e, finish_round) w
finish_round-Whole message collects s e (b, w) = rw (e, finish_round) w
finish_round-Whole message ended s e (b, w) = rw (e, finish_round) w
finish_round-Whole message writes s e (base, d, w) =
    rw (e, finish_round)
      (Returns->>= (write_out message s.back) _ _ _ (d message) (λ c k. joins s base c k.1 w))

started-IsSound : IsSound started
unfolding started create start_thread new_buffer pending FixedBuffer.create
started-IsSound = record { front = create-FrontInv; own = (start_thread-BackInv, inr refl) }

-- In whatever order callers append lines shorter than a buffer, the writer goes on and the log is told to stop,
-- no assertion fails and no missing buffer is used; and unless a round had more than 25 buffers, what the log
-- has been given by the end of the writer's round, followed by what is pending in the buffers, are all the
-- lines, whole and in the order of their calls. It is not stated that what is pending will be written.
pub run-Whole :
    (es : List Event) (message : List ℕ)
    → All IsShort es
    → Returns (run es started >>= finish_round message) (λ s. Whole s (joined s.back.output))
run-Whole es message a =
    Returns->>= (run es started) (finish_round message) IsSound _
      (run-IsSound es started a started-IsSound)
      (λ s h. finish_round-Whole message s.phase s refl h.own)
