-- ===== src/Transport/Datagram/Fifo/Subsequence.antt =====
-- What a mailbox hands over and keeps is a subsequence of what it had and what was posted.
use tokioop.Prelude.{sym, List, [], ◌∷◌, ◌++◌, append-nil, append_assoc, subst}
use tokioop.Transport.Datagram.{Packet}
use tokioop.Transport.Datagram.Fifo.{Mailbox, Moves, stays, posts, hands, loses, clears}

-- The first list is the second with some of its items left out.
pub data Subsequence : List Packet → List Packet → Type 0 where
  done : Subsequence [] []
  drops : {xs ys : List Packet} (y : Packet) → Subsequence xs ys → Subsequence xs (y ∷ ys)
  keeps : {xs ys : List Packet} (x : Packet) → Subsequence xs ys → Subsequence (x ∷ xs) (x ∷ ys)

Subsequence-refl : (xs : List Packet) → Subsequence xs xs
Subsequence-refl [] = done
Subsequence-refl (x ∷ xs) = keeps x (Subsequence-refl xs)

Subsequence-trans :
    {xs ys zs : List Packet} → Subsequence xs ys → Subsequence ys zs → Subsequence xs zs
Subsequence-trans a done = a
Subsequence-trans a (drops z b) = drops z (Subsequence-trans a b)
Subsequence-trans (drops _ a) (keeps x b) = drops x (Subsequence-trans a b)
Subsequence-trans (keeps _ a) (keeps x b) = keeps x (Subsequence-trans a b)

Subsequence-snoc :
    {xs ys : List Packet} (p : Packet)
    → Subsequence xs ys
    → Subsequence (xs ++ p ∷ []) (ys ++ p ∷ [])
Subsequence-snoc p done = keeps p done
Subsequence-snoc p (drops y a) = drops y (Subsequence-snoc p a)
Subsequence-snoc p (keeps x a) = keeps x (Subsequence-snoc p a)

Subsequence-drop :
    (xs : List Packet) (p : Packet) (rest : List Packet) → Subsequence (xs ++ rest) (xs ++ p ∷ rest)
Subsequence-drop [] p rest = drops p (Subsequence-refl rest)
Subsequence-drop (x ∷ xs) p rest = keeps x (Subsequence-drop xs p rest)

Subsequence-nil : (ys : List Packet) → Subsequence [] ys
Subsequence-nil [] = done
Subsequence-nil (y ∷ ys) = drops y (Subsequence-nil ys)

Subsequence-clear : (xs ys : List Packet) → Subsequence (xs ++ []) (xs ++ ys)
Subsequence-clear [] ys = Subsequence-nil ys
Subsequence-clear (x ∷ xs) ys = keeps x (Subsequence-clear xs ys)

pub Moves-Subsequence :
    {m n : Mailbox} {ps : List Packet}
    → Moves m ps n
    → Subsequence (n.handed ++ n.waiting) ((m.handed ++ m.waiting) ++ ps)
Moves-Subsequence {m} stays =
    subst (Subsequence (m.handed ++ m.waiting)) (sym (append-nil (m.handed ++ m.waiting)))
      (Subsequence-refl (m.handed ++ m.waiting))
Moves-Subsequence {m} (posts {ps} {n} p a) =
    subst (λ (l : List Packet). Subsequence l ((m.handed ++ m.waiting) ++ (ps ++ p ∷ [])))
      (append_assoc n.handed n.waiting (p ∷ []))
      (subst (Subsequence ((n.handed ++ n.waiting) ++ p ∷ []))
        (append_assoc (m.handed ++ m.waiting) ps (p ∷ []))
        (Subsequence-snoc p (Moves-Subsequence a)))
Moves-Subsequence {m} (hands {ps} {rest} {handed} p a) =
    subst (λ (l : List Packet). Subsequence l ((m.handed ++ m.waiting) ++ ps))
      (sym (append_assoc handed (p ∷ []) rest)) (Moves-Subsequence a)
Moves-Subsequence (loses {ps} {rest} {handed} p a) =
    Subsequence-trans (Subsequence-drop handed p rest) (Moves-Subsequence a)
Moves-Subsequence (clears {ps} {n} a) =
    Subsequence-trans (Subsequence-clear n.handed n.waiting) (Moves-Subsequence a)
