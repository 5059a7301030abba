-- ===== src/Net/Channel/Events.antt =====
-- The event sets of a channel, and its switches.
use thread_library.Prelude.{◌≡◌, refl, ℕ, Bool, true, false}
use thread_library.Net.Channel.{
  Channel, enable_reading, enable_writing, disable_all, is_reading, is_writing,
}

-- No events, those of reading, those of writing, or both.
abbrev interest : Bool → Bool → ℕ
interest false false = 0
interest true false = 3
interest false true = 4
interest true true = 7

abbrev pub IsInterested : Bool → Bool → Channel → Type 0
IsInterested r w c = c.interested ≡ interest r w

pub data Switch : Type 0 where
  reading writing : Bool → Switch
  all_off : Switch

unfoldable pub apply : Channel → Switch → Channel
unfolding enable_reading enable_writing disable_all
apply c (reading s) = enable_reading s c
apply c (writing s) = enable_writing s c
apply c all_off = disable_all c

abbrev pub turn : Bool × Bool → Switch → Bool × Bool
turn (r, w) (reading s) = (s, w)
turn (r, w) (writing s) = (r, s)
turn (r, w) all_off = (false, false)

apply-eq :
    (c : Channel) (r w : Bool) (s : Switch)
    → IsInterested r w c
    → (apply c s).interested ≡ interest (turn (r, w) s).0 (turn (r, w) s).1
unfolding apply
apply-eq c false false (reading false) h = rw h
apply-eq c false false (reading true) h = rw h
apply-eq c false true (reading false) h = rw h
apply-eq c false true (reading true) h = rw h
apply-eq c true false (reading false) h = rw h
apply-eq c true false (reading true) h = rw h
apply-eq c true true (reading false) h = rw h
apply-eq c true true (reading true) h = rw h
apply-eq c false false (writing false) h = rw h
apply-eq c false false (writing true) h = rw h
apply-eq c false true (writing false) h = rw h
apply-eq c false true (writing true) h = rw h
apply-eq c true false (writing false) h = rw h
apply-eq c true false (writing true) h = rw h
apply-eq c true true (writing false) h = rw h
apply-eq c true true (writing true) h = rw h
apply-eq c r w all_off h = refl

pub queries :
    (c : Channel) (r w : Bool) → IsInterested r w c → (is_reading c ≡ r) × (is_writing c ≡ w)
unfolding is_reading is_writing
queries c false false h = (rw h, rw h)
queries c false true h = (rw h, rw h)
queries c true false h = (rw h, rw h)
queries c true true h = (rw h, rw h)

-- Each switch changes only the interest that it names: of a channel that reads and writes as the two
-- flags say, the queries answer after any switch as the flags changed by that switch.
pub switch_queries :
    (c : Channel) (r w : Bool) (s : Switch)
    → IsInterested r w c
    → IsInterested (turn (r, w) s).0 (turn (r, w) s).1 (apply c s)
      × (is_reading (apply c s) ≡ (turn (r, w) s).0)
      × (is_writing (apply c s) ≡ (turn (r, w) s).1)
switch_queries c r w s h =
    let e = apply-eq c r w s h in (e, (queries (apply c s) _ _ e).0, (queries (apply c s) _ _ e).1)
