-- ===== src/Block/Effects.antt =====
-- What the removal of one node does to the addresses covered, to the order and to the other nodes.
use mathlib.Core.Path.{subst}
use mathlib.Core.List.{append_assoc}
use strawberry_os.Prelude.{
  ℕ, ◌+◌, ◌≤◌, ◌<◌, ◌≡◌, sym, ◌∙◌, ◌||◌, List, [], ◌∷◌, ◌++◌, arith, inl, inr, All, All-append,
  All-append_left, All-append_right,
}
use strawberry_os.Block.{MemoryBlock}
use strawberry_os.Block.Search.{IsSorted}
use strawberry_os.Block.Removal.{Removed, unlinked, replaced, uses}
use strawberry_os.Block.Cover.{
  within, covers, covers-append, inside, overlaps, overlaps-append, IsFit, Holds, Holds-middle,
  Holds-append, Holds-left, Holds-right, Holds-unique,
}

IsSorted-drop :
    (ls rs : List MemoryBlock) (b : MemoryBlock) → IsSorted (ls ++ (b ∷ rs)) → IsSorted (ls ++ rs)
IsSorted-drop [] rs b s = s.1
IsSorted-drop (x ∷ ls) rs b s = (
  All-append _ ls rs (All-append_left _ ls (b ∷ rs) s.0) (All-append_right _ ls (b ∷ rs) s.0).1,
  IsSorted-drop ls rs b s.1,
)

IsSorted-rename :
    (ls rs : List MemoryBlock) (c : MemoryBlock) (p : ℕ)
    → IsSorted (ls ++ (c ∷ rs))
    → IsSorted (ls ++ (record c { ptr = p } ∷ rs))
IsSorted-rename [] rs c p s = s
IsSorted-rename (x ∷ ls) rs c p s = (
  All-append _ ls _ (All-append_left _ ls (c ∷ rs) s.0) (All-append_right _ ls (c ∷ rs) s.0),
  IsSorted-rename ls rs c p s.1,
)

IsSorted-drop_second :
    (ls rs : List MemoryBlock) (c b : MemoryBlock)
    → IsSorted (ls ++ (c ∷ b ∷ rs))
    → IsSorted (ls ++ (c ∷ rs))
IsSorted-drop_second ls rs c b s =
    rw (append_assoc ls (c ∷ []) rs) at
      (IsSorted-drop (ls ++ (c ∷ [])) rs b (rw (← append_assoc ls (c ∷ []) (b ∷ rs)) at s))

pub IsSorted-right : (ls rs : List MemoryBlock) → IsSorted (ls ++ rs) → IsSorted rs
IsSorted-right [] rs s = s
IsSorted-right (x ∷ ls) rs s = IsSorted-right ls rs s.1

pub IsSorted-Removed :
    {p : ℕ} {xs ys : List MemoryBlock} {freed : ℕ}
    → Removed p xs ys freed
    → IsSorted xs
    → IsSorted ys
IsSorted-Removed {p} {xs} {ys} (unlinked ls rs b eb ex ey ef) s =
    subst IsSorted (sym ey) (IsSorted-drop ls rs b (subst IsSorted ex s))
IsSorted-Removed {p} {xs} {ys} (replaced ls rs c b eb ex ey ef) s =
    subst IsSorted (sym ey)
      (IsSorted-rename ls rs c p (IsSorted-drop_second ls rs c b (subst IsSorted ex s)))

pub All-IsFit-Removed :
    (least : ℕ) {p : ℕ} {xs ys : List MemoryBlock} {freed : ℕ}
    → Removed p xs ys freed
    → All (IsFit least) xs
    → All (IsFit least) ys
All-IsFit-Removed least {p} {xs} {ys} (unlinked ls rs b eb ex ey ef) s =
    let h = rw ex at s in
    rw ey (All-append _ ls rs (All-append_left _ ls _ h) (All-append_right _ ls (b ∷ rs) h).1)
All-IsFit-Removed least {p} {xs} {ys} (replaced ls rs c b eb ex ey ef) s =
    let h = rw ex at s in
    rw ey (
      All-append _ ls _ (All-append_left _ ls _ h)
        ((All-append_right _ ls (c ∷ b ∷ rs) h).0, (All-append_right _ ls (c ∷ b ∷ rs) h).1.1))

-- The node that is removed, where its address is used once.
module _ (b : MemoryBlock) (xs : List MemoryBlock) (once : uses b.ptr xs ≤ 1)
    (held : Holds b xs) where
  same : (ls rs : List MemoryBlock) (c : MemoryBlock) → xs ≡ ls ++ (c ∷ rs) → c.ptr ≡ b.ptr → c ≡ b
  same ls rs c e q = sym (Holds-unique xs b c once (sym q) held (rw e (Holds-middle ls rs c)))

  last :
      (ls rs : List MemoryBlock) (c d : MemoryBlock)
      → xs ≡ ls ++ (c ∷ d ∷ rs)
      → d.ptr ≡ b.ptr
      → d ≡ b
  last ls rs c d e q = same (ls ++ (c ∷ [])) rs d (e ∙ sym (append_assoc ls (c ∷ []) (d ∷ rs))) q

  -- The removal takes away the addresses of the node, and no other.
  pub covers-Removed :
      {ys : List MemoryBlock} {freed : ℕ} (x : ℕ)
      → Removed b.ptr xs ys freed
      → covers x xs ≡ (covers x ys || within x b)
  covers-Removed {ys} {freed} x (unlinked ls rs c eb ex ey ef) =
      let e = same ls rs c ex eb in rw (ex, ey, covers-append, covers-append, e) (ground arith)
  covers-Removed {ys} {freed} x (replaced ls rs d c eb ex ey ef) =
      let e = last ls rs d c ex eb in rw (ex, ey, covers-append, covers-append, e) (ground arith)

  pub overlaps-Removed :
      {ys : List MemoryBlock} {freed : ℕ} (x : ℕ)
      → Removed b.ptr xs ys freed
      → overlaps x xs ≡ overlaps x ys + inside x b
  overlaps-Removed {ys} {freed} x (unlinked ls rs c eb ex ey ef) =
      let e = same ls rs c ex eb in rw (ex, ey, overlaps-append, overlaps-append, e) (omega arith)
  overlaps-Removed {ys} {freed} x (replaced ls rs d c eb ex ey ef) =
      let e = last ls rs d c ex eb in rw (ex, ey, overlaps-append, overlaps-append, e) (omega arith)

  -- Another node stays, unless it was the one whose contents were moved.
  pub Holds-Removed :
      {ys : List MemoryBlock} {freed : ℕ} (c : MemoryBlock)
      → Removed b.ptr xs ys freed
      → IsSorted xs
      → b.a < c.a
      → Holds c xs
      → Holds c ys
  Holds-Removed {ys} {freed} c (unlinked ls rs d eb ex ey ef) s lt h =
      elim (Holds-append ls (d ∷ rs) c (subst (Holds c) ex h)) [
        | inl k ↦ subst (Holds c) (sym ey) (Holds-left ls rs c k)
        | inr (inl e) ↦ absurd (ground (arith, same ls rs d ex eb))
        | inr (inr k) ↦ subst (Holds c) (sym ey) (Holds-right ls rs c k)
      ]
  Holds-Removed {ys} {freed} c (replaced ls rs d d' eb ex ey ef) s lt h =
      elim (Holds-append ls (d ∷ d' ∷ rs) c (subst (Holds c) ex h)) [
        | inl k ↦ subst (Holds c) (sym ey) (Holds-left ls _ c k)
        | inr (inl e) ↦
            absurd (
              ground
                (arith, last ls rs d d' ex eb, (IsSorted-right ls _ (subst IsSorted ex s)).0.0))
        | inr (inr (inl e)) ↦ absurd (ground (arith, last ls rs d d' ex eb))
        | inr (inr (inr k)) ↦ subst (Holds c) (sym ey) (Holds-right ls _ c (inr k))
      ]
