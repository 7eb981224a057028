-- ===== src/Fs/Table/Slots.antt =====
-- An inode table on which no closure is running, as the list of its inodes.
use sunflower.Common.{
  if◌then◌else◌, Option-cases, length, set, take, drop, ℕ, zero, suc, ◌+◌, ◌<◌, ◌≡◌, refl, ap, inl,
  inr, false, Option, none, some, List, [], ◌∷◌, map, arith,
}
use sunflower.Common.Outcome.{ok}
use sunflower.Sync.Exclusive.{map as exmap, compare_exchange, run_closure, release}
use sunflower.Fs.Inode.{Inode, is_available, clone}
use sunflower.Fs.Table.{InodeTable, offer, claim_slot, peek, gather}

-- The table that holds these inodes, each in a free map.
abbrev pub holding : List Inode → InodeTable
holding [] = []
holding (n ∷ ns) = record { cell = n; access = false } ∷ holding ns

-- The place of the first inode that is free for use.
unfoldable pub first_available : List Inode → Option ℕ
first_available [] = none
first_available (n ∷ ns) =
    let later = first_available ns in
    if is_available n then some 0 else elim later [ none ↦ none | some i ↦ some (i + 1) ]

abbrev pub shifted : ℕ → Option ℕ → Option ℕ
shifted k none = none
shifted k (some i) = some (k + i)

abbrev pub stored : Inode → Option ℕ → List Inode → List Inode
stored nod none ns = ns
stored nod (some i) ns = set ns i (clone nod)

pub claim_slot-holding :
    (nod : Inode) (k : ℕ) (ns : List Inode)
    → claim_slot nod k (holding ns)
      ≡ (shifted k (first_available ns), holding (stored nod (first_available ns) ns))
unfolding claim_slot first_available exmap compare_exchange run_closure release offer
claim_slot-holding nod k [] = refl
claim_slot-holding nod k (n ∷ ns) = elim (Option-cases (first_available ns)) [
  | inl e ↦ ground (arith, claim_slot-holding nod (k + 1) ns)
  | inr (i, e) ↦ ground (arith, claim_slot-holding nod (k + 1) ns)
]

pub peek-holding : (n : Inode) → peek (record { cell = n; access = false }) ≡ some (clone n)
unfolding peek exmap compare_exchange run_closure release
peek-holding n = refl

pub gather-holding :
    (E : Type 0) (ns : List Inode) → gather {E = E} (holding ns) ≡ ok (map clone ns)
unfolding gather peek exmap compare_exchange run_closure release
gather-holding E [] = refl
gather-holding E (n ∷ ns) = ground (arith, gather-holding E ns)

pub length-holding : (ns : List Inode) → length (holding ns) ≡ length ns
length-holding [] = refl
length-holding (n ∷ ns) = ap suc (length-holding ns)

pub take-holding : (k : ℕ) (ns : List Inode) → take k (holding ns) ≡ holding (take k ns)
take-holding zero ns = refl
take-holding (suc k) [] = refl
take-holding (suc k) (n ∷ ns) = ap (◌∷◌ (record { cell = n; access = false })) (take-holding k ns)

pub drop-holding : (k : ℕ) (ns : List Inode) → drop k (holding ns) ≡ holding (drop k ns)
drop-holding zero ns = refl
drop-holding (suc k) [] = refl
drop-holding (suc k) (n ∷ ns) = drop-holding k ns

pub first_available-lt : (ns : List Inode) (i : ℕ) → first_available ns ≡ some i → i < length ns
unfolding first_available
first_available-lt [] i e = cc
first_available-lt (n ∷ ns) i e = elim (Option-cases (first_available ns)) [
  | inl f ↦ ground arith
  | inr (j, f) ↦ ground (arith, first_available-lt ns j f)
]
