-- ===== src/Endpoint/Datagram/Join.antt =====
-- The joining of the addresses of a datagram endpoint against a definition by look-up.
use tokioop.Prelude.{
  ℕ, suc, ◌≤◌, ◌≡◌, refl, ap, ◌∙◌, Bool, true, false, not, ◌&&◌, ◌||◌, Option, none, some, List, [],
  ◌∷◌, subst, arith, ◌==◌, is_some, Bool-cases, inl, inr, if◌then◌else◌,
}
use tokioop.Endpoint.Datagram.{
  Address, sockaddr, AddressArg, is_truthy, Info, Entry, is_key, put, new_entry, enter, enter_all,
  has_info, keep_entries,
}

-- The address that the last info with the key gives.
unfoldable pub last_of : ℕ → ℕ → List Info → Option Address
last_of f p [] = none
last_of f p (i ∷ rest) =
    let later = last_of f p rest in
    if is_some later
    then later
    else if (f == i.family) && (p == i.proto)
    then some (sockaddr i.address)
    else none

-- The first entry with the key, and the number of them.
unfoldable pub find : ℕ → ℕ → List Entry → Option Entry
find f p [] = none
find f p (n ∷ rest) =
    let later = find f p rest in if (f == n.family) && (p == n.proto) then some n else later

unfoldable pub count : ℕ → ℕ → List Entry → ℕ
count f p [] = 0
count f p (n ∷ rest) =
    let later = count f p rest in if (f == n.family) && (p == n.proto) then suc later else later

abbrev entry_of : ℕ → ℕ → Option Address → Option Address → Entry
entry_of f p x y = record { family = f; proto = p; local_address = x; remote_address = y }

-- The entry that the key is to have, from its last local and its last remote address.
unfoldable pub expected :
    AddressArg → AddressArg → ℕ → ℕ → Option Address → Option Address → Option Entry
expected l r f p x y =
    if (is_some x || is_some y)
      && (not (is_truthy l) || is_some x)
      && (not (is_truthy r) || is_some y)
    then some (entry_of f p x y)
    else none

-- What one more info makes of the entry of its key.
updated : Bool → Info → Option Entry → Option Entry
updated side i none = some (put side i (new_entry i))
updated side i (some n) = some (put side i n)

find-enter_same :
    (side : Bool) (i : Info) (ns : List Entry)
    → find i.family i.proto (enter side i ns) ≡ updated side i (find i.family i.proto ns)
unfolding find enter updated is_key put new_entry
find-enter_same true i [] = ground arith
find-enter_same false i [] = ground arith
find-enter_same true i (n ∷ rest) = ground (arith, find-enter_same true i rest)
find-enter_same false i (n ∷ rest) = ground (arith, find-enter_same false i rest)

find-enter_other :
    (f p : ℕ) (side : Bool) (i : Info) (ns : List Entry)
    → (f == i.family) && (p == i.proto) ≡ false
    → find f p (enter side i ns) ≡ find f p ns
unfolding find enter is_key put new_entry
find-enter_other f p true i [] h = ground arith
find-enter_other f p false i [] h = ground arith
find-enter_other f p true i (n ∷ rest) h = ground (arith, find-enter_other f p true i rest h)
find-enter_other f p false i (n ∷ rest) h = ground (arith, find-enter_other f p false i rest h)

count-rest : (f p : ℕ) (n : Entry) (rest : List Entry) → count f p rest ≤ count f p (n ∷ rest)
unfolding count
count-rest f p n rest = ground arith

count-enter_other :
    (f p : ℕ) (side : Bool) (i : Info) (ns : List Entry)
    → (f == i.family) && (p == i.proto) ≡ false
    → count f p (enter side i ns) ≡ count f p ns
unfolding count enter is_key put new_entry
count-enter_other f p true i [] h = ground arith
count-enter_other f p false i [] h = ground arith
count-enter_other f p true i (n ∷ rest) h = ground (arith, count-enter_other f p true i rest h)
count-enter_other f p false i (n ∷ rest) h = ground (arith, count-enter_other f p false i rest h)

count-enter_same :
    (side : Bool) (i : Info) (ns : List Entry)
    → count i.family i.proto ns ≤ 1
    → count i.family i.proto (enter side i ns) ≤ 1
unfolding count enter is_key put new_entry
count-enter_same true i [] h = ground arith
count-enter_same false i [] h = ground arith
count-enter_same true i (n ∷ rest) h =
    let c = count-rest i.family i.proto n rest in
    ground (arith, count-enter_same true i rest (omega (arith, c, h)))
count-enter_same false i (n ∷ rest) h =
    let c = count-rest i.family i.proto n rest in
    ground (arith, count-enter_same false i rest (omega (arith, c, h)))

same-pair :
    (f p : ℕ) (i : Info)
    → (f == i.family) && (p == i.proto) ≡ true
    → Path (ℕ × ℕ) (i.family, i.proto) (f, p)
same-pair f p i h = ground arith

-- What the last infos of the one side make of the entry of a key.
abbrev with_last : Bool → ℕ → ℕ → Option Address → Option Entry → Option Entry
with_last side f p none o = o
with_last true f p (some x) none = some (entry_of f p (some x) none)
with_last true f p (some x) (some n) = some (record n { local_address = some x })
with_last false f p (some x) none = some (entry_of f p none (some x))
with_last false f p (some x) (some n) = some (record n { remote_address = some x })

with_last-updated :
    (side : Bool) (i : Info) (later : Option Address) (o : Option Entry)
    → with_last side i.family i.proto later (updated side i o)
      ≡ with_last side i.family i.proto
          (if is_some later then later else some (sockaddr i.address))
          o
unfolding updated put new_entry
with_last-updated true i none none = refl
with_last-updated true i none (some n) = refl
with_last-updated true i (some x) none = refl
with_last-updated true i (some x) (some n) = refl
with_last-updated false i none none = refl
with_last-updated false i none (some n) = refl
with_last-updated false i (some x) none = refl
with_last-updated false i (some x) (some n) = refl

find-enter :
    (f p : ℕ) (side : Bool) (i : Info) (later : Option Address) (ns : List Entry)
    → with_last side f p later (find f p (enter side i ns))
      ≡ with_last side f p
          (if is_some later
            then later
            else if (f == i.family) && (p == i.proto)
            then some (sockaddr i.address)
            else none)
          (find f p ns)
find-enter f p side i later ns = elim (Bool-cases ((f == i.family) && (p == i.proto))) [
  | inl h ↦ rw h (
      subst
        (λ k.
          with_last side k.0 k.1 later (find k.0 k.1 (enter side i ns))
          ≡ with_last side k.0 k.1 (if is_some later then later else some (sockaddr i.address))
              (find k.0 k.1 ns))
        (same-pair f p i h)
        (ap (with_last side i.family i.proto later) (find-enter_same side i ns)
          ∙ with_last-updated side i later (find i.family i.proto ns)))
  | inr h ↦ rw h (ground (arith, find-enter_other f p side i ns h))
]

find-enter_all :
    (f p : ℕ) (side : Bool) (infos : List Info) (ns : List Entry)
    → find f p (enter_all side infos ns) ≡ with_last side f p (last_of f p infos) (find f p ns)
unfolding enter_all last_of
find-enter_all f p side [] ns = refl
find-enter_all f p side (i ∷ rest) ns =
    find-enter_all f p side rest (enter side i ns) ∙ find-enter f p side i (last_of f p rest) ns

count-enter :
    (f p : ℕ) (side : Bool) (i : Info) (ns : List Entry)
    → count f p ns ≤ 1
    → count f p (enter side i ns) ≤ 1
count-enter f p side i ns h = elim (Bool-cases ((f == i.family) && (p == i.proto))) [
  | inl e ↦
      subst (λ k. count k.0 k.1 ns ≤ 1 → count k.0 k.1 (enter side i ns) ≤ 1) (same-pair f p i e)
        (count-enter_same side i ns) h
  | inr e ↦ omega (arith, count-enter_other f p side i ns e, h)
]

count-enter_all :
    (f p : ℕ) (side : Bool) (infos : List Info) (ns : List Entry)
    → count f p ns ≤ 1
    → count f p (enter_all side infos ns) ≤ 1
unfolding enter_all
count-enter_all f p side [] ns h = h
count-enter_all f p side (i ∷ rest) ns h =
    count-enter_all f p side rest (enter side i ns) (count-enter f p side i ns h)

-- An entry that was kept.
kept : AddressArg → AddressArg → Option Entry → Option Entry
kept l r none = none
kept l r (some n) = if has_info l r n then some n else none

find-none : (f p : ℕ) (ns : List Entry) → count f p ns ≡ 0 → find f p ns ≡ none
unfolding count find
find-none f p [] h = refl
find-none f p (n ∷ rest) h = ground (arith, find-none f p rest)

count-keep :
    (f p : ℕ) (l r : AddressArg) (ns : List Entry) → count f p (keep_entries l r ns) ≤ count f p ns
unfolding count keep_entries
count-keep f p l r [] = omega arith
count-keep f p l r (n ∷ rest) = ground (arith, count-keep f p l r rest)

find-keep :
    (f p : ℕ) (l r : AddressArg) (ns : List Entry)
    → count f p ns ≤ 1
    → find f p (keep_entries l r ns) ≡ kept l r (find f p ns)
unfolding count find keep_entries kept
find-keep f p l r [] h = refl
find-keep f p l r (n ∷ rest) h =
    ground (
      arith,
      find-keep f p l r rest,
      find-none f p (keep_entries l r rest),
      count-keep f p l r rest,
    )

kept-expected :
    (f p : ℕ) (l r : AddressArg) (x y : Option Address)
    → kept l r (with_last false f p y (with_last true f p x none)) ≡ expected l r f p x y
unfolding kept expected has_info
kept-expected f p l r none none = refl
kept-expected f p l r none (some b) = ground arith
kept-expected f p l r (some a) none = ground arith
kept-expected f p l r (some a) (some b) = ground arith

-- For each family and protocol, the addresses that `create_datagram_endpoint` tries hold exactly one
-- entry or none: the entry of the last local and the last remote address that were resolved for it,
-- if there is any and each side that was asked for has one.
pub keep_entries-enter_all :
    (f p : ℕ) (l r : AddressArg) (locals remotes : List Info)
    → let pairs = keep_entries l r (enter_all false remotes (enter_all true locals [])) in
      (find f p pairs ≡ expected l r f p (last_of f p locals) (last_of f p remotes))
      × (count f p pairs ≤ 1)
unfolding find count
keep_entries-enter_all f p l r locals remotes =
    let entered = enter_all true locals [] in
    let once =
      count-enter_all f p false remotes entered
        (count-enter_all f p true locals [] (omega arith)) in
    (
      find-keep f p l r (enter_all false remotes entered) once
          ∙ ap (kept l r) (
              find-enter_all f p false remotes entered
              ∙ ap (with_last false f p (last_of f p remotes)) (find-enter_all f p true locals []))
          ∙ kept-expected f p l r (last_of f p locals) (last_of f p remotes),
      omega (arith, once, count-keep f p l r (enter_all false remotes entered)),
    )
