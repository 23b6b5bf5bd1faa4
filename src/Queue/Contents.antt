-- ===== src/Queue/Contents.antt =====
-- The items that a `file_queue_t` holds, oldest first, and what a put and a get do to them.

use native.Mathlib.Numerals.{add-one}
use native.Mathlib.Decide.{dec_lt}
use native.Mathlib.Nat.{mod-add-mod, mod-eq_of_lt, mod-eq-sub-mod}
use chat_app_in_c.Common.{
  ℕ, zero, suc, ◌+◌, ◌-◌, ◌%◌, ◌<◌, ◌≡◌, refl, ap, ap₂, ◌∙◌, ◌≢◌, false, some, List, [], ◌∷◌, ◌++◌,
  length, get_or, get_or-set_self, get_or-set_ne, arith,
}
use chat_app_in_c.Queue.{Block, FileItem, FileQueue, zero_item, put, get}
use chat_app_in_c.Queue.Invariant.{IsValid, no_wrap}

-- A file with its bytes
abbrev pub IsFile : FileItem → Type 0
IsFile item =
    (item.is_sentinel ≡ false)
    × (block : Block) × (item.payload ≡ some block)
    × (length block.bytes ≡ item.size)

abbrev pub AllFiles : List FileItem → Type 0
AllFiles [] = Unit
AllFiles (item ∷ items) = IsFile item × AllFiles items

-- The first `n` values of a sequence
abbrev pub tabulate {ℓ} : {A : Type ℓ} → (ℕ → A) → ℕ → List A
tabulate f zero = []
tabulate f (suc n) = f 0 ∷ tabulate (λ i. f (suc i)) n

module _ {ℓ} {A : Type ℓ} where
  tabulate_congr :
      (f g : ℕ → A) (n : ℕ) → ((i : ℕ) → i < n → f i ≡ g i) → tabulate f n ≡ tabulate g n
  tabulate_congr f g zero h = refl
  tabulate_congr f g (suc n) h =
      ap₂ ◌∷◌ (h 0 (omega arith))
        (tabulate_congr (λ i. f (suc i)) (λ i. g (suc i)) n (λ i lt. h (suc i) (omega arith)))

  tabulate-suc : (f : ℕ → A) (n : ℕ) → tabulate f (suc n) ≡ tabulate f n ++ f n ∷ []
  tabulate-suc f zero = refl
  tabulate-suc f (suc n) = ap (◌∷◌ (f 0)) (tabulate-suc (λ i. f (suc i)) n)

  length-tabulate : (f : ℕ → A) (n : ℕ) → length (tabulate f n) ≡ n
  length-tabulate f zero = refl
  length-tabulate f (suc n) = ap suc (length-tabulate (λ i. f (suc i)) n)

-- The item that is `i` places behind the head
abbrev pub slot : FileQueue → ℕ → FileItem
slot q i = get_or q.buffer ((q.head + i) % q.capacity) zero_item

-- The queued items, oldest first
abbrev pub contents : FileQueue → List FileItem
contents q = tabulate (slot q) q.count

pub length-contents : (q : FileQueue) → length (contents q) ≡ q.count
length-contents q = length-tabulate (slot q) q.count

-- Two places of the window are different slots.
slots_differ :
    (cap head i n : ℕ) → head < cap → i < n → n < cap → (head + n) % cap ≢ (head + i) % cap
slots_differ cap head i n h lt room = elim (dec_lt (head + n) cap) [
  | yes p ↦ omega (arith, mod-eq_of_lt p, mod-eq_of_lt {n = head + i} {m = cap} (omega arith))
  | no p ↦
      let wrapped : (head + n) % cap ≡ head + n - cap =
        mod-eq-sub-mod {n = head + n} {m = cap} (omega arith)
        ∙ mod-eq_of_lt {n = head + n - cap} {m = cap} (omega arith) in
      elim (dec_lt (head + i) cap) [
        | yes r ↦ omega (arith, wrapped, mod-eq_of_lt r)
        | no r ↦ omega (
          arith,
          wrapped,
          mod-eq-sub-mod {n = head + i} {m = cap} (omega arith),
          mod-eq_of_lt {n = head + i - cap} {m = cap} (omega arith),
        )
      ]
]

pub capacity-put : (q : FileQueue) (item : FileItem) → (put q item).capacity ≡ q.capacity
unfolding put
capacity-put q item = refl

pub capacity-get : (q : FileQueue) → (get q).1.capacity ≡ q.capacity
unfolding get
capacity-get q = refl

pub contents-put :
    {q : FileQueue} (item : FileItem)
    → IsValid q
    → q.count < q.capacity
    → contents (put q item) ≡ contents q ++ item ∷ []
unfolding put
contents-put {q} item v room =
    ap (tabulate (slot (put q item))) ((no_wrap v).2 ∙ add-one q.count)
    ∙ tabulate-suc (slot (put q item)) q.count
    ∙ ap₂ (λ xs (x : FileItem). xs ++ x ∷ [])
        (tabulate_congr (slot (put q item)) (slot q) q.count old)
        (rw v.tail_at (get_or-set_self q.buffer _ item zero_item (omega (arith, no_wrap v))))
  where
    old : (i : ℕ) → i < q.count → slot (put q item) i ≡ slot q i
    old i lt =
        get_or-set_ne q.buffer q.tail _ item zero_item
          (rw v.tail_at (slots_differ q.capacity q.head i q.count v.head_in lt room))

pub contents-get :
    {q : FileQueue} → IsValid q → 0 < q.count → contents q ≡ (get q).0 ∷ contents (get q).1
unfolding get
contents-get {q} v some_left =
    let front : (q.head + 0) % q.capacity ≡ q.head =
      ap (λ n. n % q.capacity) (omega arith) ∙ mod-eq_of_lt v.head_in in
    let count : q.count ≡ suc (q.count - 1) = omega arith in
    ap (tabulate (slot q)) count
    ∙ ap₂ ◌∷◌ (ap (λ n. get_or q.buffer n zero_item) front)
        (tabulate_congr (λ i. slot q (suc i)) (slot (get q).1) (q.count - 1) (λ i lt. next i))
  where
    next : (i : ℕ) → slot q (suc i) ≡ slot (get q).1 i
    next i =
        ap (λ n. get_or q.buffer n zero_item)
          (rw ((no_wrap v).1, mod-add-mod) (ap (λ n. n % q.capacity) (omega arith)))
