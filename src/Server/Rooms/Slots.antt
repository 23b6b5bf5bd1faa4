-- ===== src/Server/Rooms/Slots.antt =====
-- The pointer arrays: how often a pointer stands in one, and what the loops over them do.
use chat_app_in_c.Common.{
  ℕ, zero, suc, ◌+◌, ◌<◌, ◌≤◌, ◌≡◌, refl, ap, Bool, true, Option, none, some, inl, inr, List, [],
  ◌∷◌, ◌==◌, if◌then◌else◌, Bool-cases, Option-cases, length, set, replicate, arith,
}
use chat_app_in_c.Server.{Ptr}
use chat_app_in_c.Server.Rooms.{find_free, place, clear, all_null, unlist}

abbrev pub Slots : Type 0
Slots = List (Option Ptr)

-- How many slots point to `p`
unfoldable pub uses : Ptr → Slots → ℕ
uses p [] = 0
uses p (none ∷ slots) = uses p slots
uses p (some q ∷ slots) = (if q == p then 1 else 0) + uses p slots

-- How many slots are in use
unfoldable pub filled : Slots → ℕ
filled [] = 0
filled (none ∷ slots) = filled slots
filled (some q ∷ slots) = suc (filled slots)

abbrev pub one_if : Bool → ℕ
one_if b = if b then 1 else 0

pub uses-replicate : (n : ℕ) (p : Ptr) → uses p (replicate n none) ≡ 0
unfolding uses
uses-replicate zero p = refl
uses-replicate (suc n) p = uses-replicate n p

pub filled-replicate : (n : ℕ) → filled (replicate n none) ≡ 0
unfolding filled
filled-replicate zero = refl
filled-replicate (suc n) = filled-replicate n

pub uses-le-filled : (p : Ptr) (slots : Slots) → uses p slots ≤ filled slots
unfolding uses filled
uses-le-filled p [] = omega arith
uses-le-filled p (none ∷ slots) = uses-le-filled p slots
uses-le-filled p (some q ∷ slots) = ground (arith, uses-le-filled p slots)

-- `slots'` is `slots` with one more slot that points to `c`.
pub record Gains (c : Ptr) (slots slots' : Slots) : Type 0 where
  pub size : length slots' ≡ length slots
  pub count : filled slots' ≡ filled slots + 1
  pub gained : (p : Ptr) → uses p slots' ≡ uses p slots + one_if (c == p)

pub Gains-head : (c : Ptr) (slots : Slots) → Gains c (none ∷ slots) (some c ∷ slots)
unfolding uses filled
Gains-head c slots = record { size = refl; count = omega arith; gained = λ p. ground arith }

pub Gains-tail :
    {c : Ptr} {slots slots' : Slots} (d : Ptr)
    → Gains c slots slots'
    → Gains c (some d ∷ slots) (some d ∷ slots')
unfolding uses filled
Gains-tail {c} d g = record {
  size = ap suc g.size;
  count = omega (arith, g.count);
  gained = λ p. ground (arith, g.gained p);
}

pub Gains-none :
    {c : Ptr} {slots slots' : Slots} → Gains c slots slots' → Gains c (none ∷ slots) (none ∷ slots')
unfolding uses filled
Gains-none g = record { size = ap suc g.size; count = g.count; gained = g.gained }

filled-le-length : (slots : Slots) → filled slots ≤ length slots
unfolding filled
filled-le-length [] = omega arith
filled-le-length (none ∷ slots) = omega (arith, filled-le-length slots)
filled-le-length (some d ∷ slots) = omega (arith, filled-le-length slots)

eq_of_test : (a b : ℕ) → (a == b) ≡ true → a ≡ b
eq_of_test a b h = ground arith

-- `place` finds a slot if there is one free; the connection then stands once more in the array, and
-- every other pointer as often as before.
pub place-Gains :
    (c : Ptr) (slots : Slots)
    → filled slots < length slots
    → (slots' : Slots) × (place c slots ≡ some slots') × Gains c slots slots'
unfolding place filled
place-Gains c [] h = absurd (omega arith)
place-Gains c (none ∷ slots) h = (some c ∷ slots, refl, Gains-head c slots)
place-Gains c (some d ∷ slots) h =
    let (rest, e, g) = place-Gains c slots (omega arith) in (some d ∷ rest, rw e, Gains-tail d g)

-- So too for the slot that `find_free` finds, when a pointer is stored there.
pub find_free-Gains :
    (c : Ptr) (slots : Slots)
    → filled slots < length slots
    → (i : ℕ) × (find_free slots ≡ some i) × Gains c slots (set slots i (some c))
unfolding find_free filled
find_free-Gains c [] h = absurd (omega arith)
find_free-Gains c (none ∷ slots) h = (0, refl, Gains-head c slots)
find_free-Gains c (some d ∷ slots) h =
    let (i, e, g) = find_free-Gains c slots (omega arith) in (suc i, rw e, Gains-tail d g)

-- The slot that `find_free` answers was free.
pub find_free-some :
    (c : Ptr) (slots : Slots) (i : ℕ)
    → find_free slots ≡ some i
    → Gains c slots (set slots i (some c))
unfolding find_free
find_free-some c [] i h = cc
find_free-some c (none ∷ slots) zero h = Gains-head c slots
find_free-some c (none ∷ slots) (suc i) h = absurd (ground arith)
find_free-some c (some d ∷ slots) i h = elim (Option-cases (find_free slots)) [
  | inl e ↦ cc (h, e)
  | inr (j, e) ↦
      let at : suc j ≡ i = ground arith in rw (← at) (Gains-tail d (find_free-some c slots j e))
]

-- `find_free` fails only on an array with no free slot.
pub find_free_full : (slots : Slots) → length slots ≤ filled slots → find_free slots ≡ none
unfolding find_free filled
find_free_full [] h = refl
find_free_full (none ∷ slots) h = absurd (omega (arith, filled-le-length slots))
find_free_full (some d ∷ slots) h = rw (find_free_full slots (omega arith))

-- The first slot that points to `c` is emptied by `clear`; every other pointer stands as often as
-- before.
pub clear-Gains :
    (c : Ptr) (slots : Slots)
    → 0 < uses c slots
    → (slots' : Slots) × (clear c slots ≡ some slots') × Gains c slots' slots
unfolding clear uses
clear-Gains c [] h = absurd (omega arith)
clear-Gains c (none ∷ slots) h =
    let (rest, e, g) = clear-Gains c slots h in (none ∷ rest, rw e, Gains-none g)
clear-Gains c (some d ∷ slots) h = elim (Bool-cases (d == c)) [
  | inl hit ↦ (none ∷ slots, rw hit, rw (eq_of_test d c hit) (Gains-head c slots))
  | inr miss ↦
      let (rest, e, g) = clear-Gains c slots (ground arith) in
      (some d ∷ rest, rw (miss, e), Gains-tail d g)
]

-- `unlist` takes one slot with `p` out.
pub unlist-Gains : (p : Ptr) (slots : Slots) → 0 < uses p slots → Gains p (unlist p slots) slots
unfolding unlist uses
unlist-Gains p [] h = absurd (omega arith)
unlist-Gains p (none ∷ slots) h = Gains-none (unlist-Gains p slots h)
unlist-Gains p (some q ∷ slots) h = elim (Bool-cases (q == p)) [
  | inl hit ↦ rw hit (rw (eq_of_test q p hit) (Gains-head p slots))
  | inr miss ↦ rw miss (Gains-tail q (unlist-Gains p slots (ground arith)))
]

-- The second loop of `room_remove_member` finds out whether any slot is in use.
pub all_null-filled : (slots : Slots) → all_null slots ≡ (filled slots == 0)
unfolding all_null filled
all_null-filled [] = refl
all_null-filled (none ∷ slots) = all_null-filled slots
all_null-filled (some d ∷ slots) = ground arith
