-- ===== src/Iflist/Change.antt =====
-- csp_iflist_add and csp_iflist_remove.
use libcsp_dphi.Base.{
  ℕ, ◌≡◌, ◌≢◌, inl, inr, refl, ap, ◌∙◌, arith, true, false, Bool-cases, ◌==◌, ==_refl, ==_ne,
  Option, none, some, List, [], ◌∷◌, ◌++◌, All, All-append,
}
use libcsp_dphi.Iface.{Iface}
use libcsp_dphi.Iflist.{
  cut, taken, add_named, add_if_named, add, remove, same_prefix, name_of, name_max,
}
use libcsp_dphi.Iflist.Search.{Apart}

-- No interface of the list has the address of `ifc`, or a name that agrees with `name` in the
-- characters that are compared.
abbrev pub IsNew : Iface → List ℕ → List Iface → Type 0
IsNew ifc name = All (λ i. (i.ptr ≢ ifc.ptr) × (same_prefix name_max name (name_of i) ≡ false))

cut_new :
    (ptr : ℕ) (interfaces : List Iface)
    → All (λ i. i.ptr ≢ ptr) interfaces
    → cut ptr interfaces ≡ interfaces
unfolding cut
cut_new ptr [] n = refl
cut_new ptr (i ∷ interfaces) n =
    rw (==_ne i.ptr ptr n.0) (ap (λ l. i ∷ l) (cut_new ptr interfaces n.1))

cut_at :
    (before after : List Iface) (ifc : Iface)
    → All (λ i. i.ptr ≢ ifc.ptr) before
    → cut ifc.ptr (before ++ ifc ∷ after) ≡ before ++ ifc ∷ []
unfolding cut
cut_at [] after ifc n = rw (==_refl ifc.ptr)
cut_at (i ∷ before) after ifc n =
    rw (==_ne i.ptr ifc.ptr n.0) (ap (λ l. i ∷ l) (cut_at before after ifc n.1))

taken_new :
    (ifc : Iface) (name : List ℕ) (interfaces : List Iface)
    → IsNew ifc name interfaces
    → taken ifc name interfaces ≡ false
unfolding taken
taken_new ifc name [] n = refl
taken_new ifc name (i ∷ interfaces) n =
    rw (==_ne i.ptr ifc.ptr n.0.0, n.0.1) (taken_new ifc name interfaces n.1)

taken_at :
    (ifc : Iface) (name : List ℕ) (before : List Iface) → taken ifc name (before ++ ifc ∷ []) ≡ true
unfolding taken
taken_at ifc name [] = rw (==_refl ifc.ptr)
taken_at ifc name (i ∷ before) = ground (arith, taken_at ifc name before)

All-ptr :
    (ifc : Iface) (name : List ℕ) (interfaces : List Iface)
    → IsNew ifc name interfaces
    → All (λ i. i.ptr ≢ ifc.ptr) interfaces
All-ptr ifc name [] n = tt
All-ptr ifc name (i ∷ interfaces) n = (n.0.0, All-ptr ifc name interfaces n.1)

-- A new interface with a name goes to the end of the list.
pub add_new :
    (ifc : Iface) (name : List ℕ) (interfaces : List Iface)
    → ifc.name ≡ some name
    → IsNew ifc name interfaces
    → add ifc interfaces ≡ interfaces ++ ifc ∷ []
unfolding add add_named
add_new ifc name interfaces named n =
    ap (λ o. add_if_named o ifc interfaces) named
    ∙ rw (
      cut_new ifc.ptr interfaces (All-ptr ifc name interfaces n),
      taken_new ifc name interfaces n,
    )

-- An interface with a name that is already in the list and is added again loses the list behind it:
-- `next` is cleared before the list is searched.
pub add_again :
    (ifc : Iface) (name : List ℕ) (before after : List Iface)
    → ifc.name ≡ some name
    → All (λ i. i.ptr ≢ ifc.ptr) before
    → add ifc (before ++ ifc ∷ after) ≡ before ++ ifc ∷ []
unfolding add add_named
add_again ifc name before after named n =
    ap (λ o. add_if_named o ifc (before ++ ifc ∷ after)) named
    ∙ rw (cut_at before after ifc n, taken_at ifc name before)

All-cut :
    (P : Iface → Type 0) (ptr : ℕ) (interfaces : List Iface)
    → All P interfaces
    → All P (cut ptr interfaces)
unfolding cut
All-cut P ptr [] h = tt
All-cut P ptr (i ∷ interfaces) h = elim (Bool-cases (i.ptr == ptr)) [
  | inl e ↦ rw e (h.0, tt)
  | inr e ↦ rw e (h.0, All-cut P ptr interfaces h.1)
]

cut-Apart : (ptr : ℕ) (interfaces : List Iface) → Apart interfaces → Apart (cut ptr interfaces)
unfolding cut
cut-Apart ptr [] a = tt
cut-Apart ptr (i ∷ interfaces) a = elim (Bool-cases (i.ptr == ptr)) [
  | inl e ↦ rw e (tt, tt)
  | inr e ↦ rw e (All-cut (λ j. j.ptr ≢ i.ptr) ptr interfaces a.0, cut-Apart ptr interfaces a.1)
]

Apart-last :
    (ifc : Iface) (name : List ℕ) (interfaces : List Iface)
    → taken ifc name interfaces ≡ false
    → Apart interfaces
    → Apart (interfaces ++ ifc ∷ [])
unfolding taken
Apart-last ifc name [] t a = (tt, tt)
Apart-last ifc name (i ∷ interfaces) t a = (
  All-append (λ j. j.ptr ≢ i.ptr) interfaces (ifc ∷ []) a.0 ((λ e. ground arith), tt),
  Apart-last ifc name interfaces (ground arith) a.1,
)

-- Adding an interface, new or not, keeps the interfaces of the list distinct.
pub add-Apart :
    (ifc : Iface) (interfaces : List Iface) → Apart interfaces → Apart (add ifc interfaces)
unfolding add add_named
add-Apart ifc interfaces a = by_name ifc.name
  where
    pool : List Iface
    pool = cut ifc.ptr interfaces

    named : (name : List ℕ) → Apart (add_named ifc name interfaces)
    named name = elim (Bool-cases (taken ifc name pool)) [
      | inl e ↦ rw e (cut-Apart ifc.ptr interfaces a)
      | inr e ↦ rw e (Apart-last ifc name pool e (cut-Apart ifc.ptr interfaces a))
    ]

    by_name : (o : Option (List ℕ)) → Apart (add_if_named o ifc interfaces)
    by_name none = a
    by_name (some name) = named name

-- Removing an interface takes it and no other out of a list of distinct interfaces, and leaves a
-- list without it alone.
pub remove_lem :
    (ifc : Iface) (before after : List Iface)
    → All (λ i. i.ptr ≢ ifc.ptr) before
    → (remove (some ifc.ptr) (before ++ ifc ∷ after) ≡ before ++ after)
      × (remove (some ifc.ptr) before ≡ before)
unfolding remove
remove_lem ifc [] after n = (rw (==_refl ifc.ptr), refl)
remove_lem ifc (i ∷ before) after n =
    let (here, absent) = remove_lem ifc before after n.1 in
    (
      rw (==_ne i.ptr ifc.ptr n.0) (ap (λ l. i ∷ l) here),
      rw (==_ne i.ptr ifc.ptr n.0) (ap (λ l. i ∷ l) absent),
    )
