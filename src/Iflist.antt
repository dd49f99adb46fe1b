-- ===== src/Iflist.antt =====
-- csp_iflist.c: the linked list of interfaces, head first. A pointer to an interface is its `ptr`;
-- a search that starts behind an interface takes that pointer, and `none` for NULL. `version` is
-- `csp_conf.version`.
pub mod Search
pub mod Change
mod Tests
use libcsp_dphi.Base.{
  ℕ, zero, suc, ◌+◌, ◌-◌, ◌*◌, ◌/◌, ◌^◌, bit_and, Bool, true, false, not, ◌&&◌, ◌||◌, ◌==◌, ltb,
  leb, if◌then◌else◌, Option, none, some, List, [], ◌∷◌, ◌++◌, map, u16,
}
use libcsp_dphi.Iface.{Iface}
use libcsp_dphi.Id.{get_host_bits}

-- csp_iflist_is_within_subnet
unfoldable pub is_within_subnet : ℕ → ℕ → Option Iface → Bool
is_within_subnet version addr none = false
is_within_subnet version addr (some ifc) =
    let netmask = u16 ((2 ^ ifc.netmask - 1) * 2 ^ (get_host_bits version - ifc.netmask)) in
    bit_and ifc.addr netmask == bit_and addr netmask

-- The interfaces behind the one at `ptr`, which its `next` leads to.
unfoldable pub after : ℕ → List Iface → List Iface
after ptr [] = []
after ptr (i ∷ interfaces) = if i.ptr == ptr then interfaces else after ptr interfaces

-- Where a search starts: at the head, or behind the interface given.
unfoldable pub start : Option ℕ → List Iface → List Iface
start none interfaces = interfaces
start (some ptr) interfaces = after ptr interfaces

-- The loop of the searches: the first interface that passes.
unfoldable pub first_that : (Iface → Bool) → List Iface → Option Iface
first_that test [] = none
first_that test (i ∷ interfaces) = if test i then some i else first_that test interfaces

-- csp_iflist_get_by_subnet: a netmask of 0 is skipped.
unfoldable pub get_by_subnet : ℕ → ℕ → Option ℕ → List Iface → Option Iface
get_by_subnet version addr ifc interfaces =
    first_that (λ i. if i.netmask == 0 then false else is_within_subnet version addr (some i))
      (start ifc interfaces)

-- csp_iflist_get_by_isdfl
unfoldable pub get_by_isdfl : Option ℕ → List Iface → Option Iface
get_by_isdfl ifc interfaces = first_that (λ i. i.is_default == 1) (start ifc interfaces)

-- csp_iflist_iterate
unfoldable pub iterate : Option ℕ → List Iface → Option Iface
iterate ifc interfaces = first_that (λ i. true) (start ifc interfaces)

-- csp_iflist_get_by_addr
unfoldable pub get_by_addr : ℕ → List Iface → Option Iface
get_by_addr addr interfaces = first_that (λ i. i.addr == addr) interfaces

-- strncmp(a, b, n) == 0 on strings that end before their terminating zero.
unfoldable pub same_prefix : ℕ → List ℕ → List ℕ → Bool
same_prefix zero a b = true
same_prefix (suc n) [] [] = true
same_prefix (suc n) [] (y ∷ b) = false
same_prefix (suc n) (x ∷ a) [] = false
same_prefix (suc n) (x ∷ a) (y ∷ b) = x == y && same_prefix n a b

-- CSP_IFLIST_NAME_MAX
abbrev pub name_max : ℕ
name_max = 10

abbrev pub name_of : Iface → List ℕ
name_of i = elim i.name [ none ↦ [] | some name ↦ name ]

-- csp_iflist_get_by_name
unfoldable pub get_by_name : List ℕ → List Iface → Option Iface
get_by_name name interfaces = first_that (λ i. same_prefix name_max (name_of i) name) interfaces

-- csp_iflist_get_by_index
unfoldable pub get_by_index : ℕ → List Iface → Option Iface
get_by_index idx [] = none
get_by_index zero (i ∷ interfaces) = some i
get_by_index (suc idx) (i ∷ interfaces) = get_by_index idx interfaces

-- csp_iflist_check_dfl; `lo` is the address of csp_if_lo.
unfoldable pub set_defaults : ℕ → List Iface → List Iface
set_defaults lo [] = []
set_defaults lo (i ∷ interfaces) =
    (if i.ptr == lo then i else record i { is_default = 1 }) ∷ set_defaults lo interfaces

unfoldable pub check_dfl : ℕ → List Iface → List Iface
check_dfl lo interfaces = elim (get_by_isdfl none interfaces) [
  | some i ↦ interfaces
  | none ↦ set_defaults lo interfaces
]

-- The effect of `ifc->next = NULL` on the list, if the interface is in it.
unfoldable pub cut : ℕ → List Iface → List Iface
cut ptr [] = []
cut ptr (i ∷ interfaces) = i ∷ (if i.ptr == ptr then [] else cut ptr interfaces)

-- The loop of csp_iflist_add: true if it returns at an interface of the pool.
unfoldable pub taken : Iface → List ℕ → List Iface → Bool
taken ifc name [] = false
taken ifc name (i ∷ interfaces) =
    if i.ptr == ifc.ptr || same_prefix name_max name (name_of i)
    then true
    else taken ifc name interfaces

-- csp_iflist_add, on an interface that is not NULL.
unfoldable pub add_named : Iface → List ℕ → List Iface → List Iface
add_named ifc name interfaces =
    let pool = cut ifc.ptr interfaces in if taken ifc name pool then pool else pool ++ ifc ∷ []

unfoldable pub add_if_named : Option (List ℕ) → Iface → List Iface → List Iface
add_if_named none ifc interfaces = interfaces
add_if_named (some name) ifc interfaces = add_named ifc name interfaces

unfoldable pub add : Iface → List Iface → List Iface
unfolding add_if_named
add ifc interfaces = add_if_named ifc.name ifc interfaces

-- csp_iflist_remove
unfoldable pub remove : Option ℕ → List Iface → List Iface
remove none interfaces = interfaces
remove (some ptr) [] = []
remove (some ptr) (i ∷ interfaces) =
    if i.ptr == ptr then interfaces else i ∷ remove (some ptr) interfaces

-- csp_bytesize: the size, and the letter of its unit.
unfoldable pub bytesize : ℕ → ℕ × ℕ
bytesize bytes =
    if leb (1024 * 1024) bytes
    then (bytes / (1024 * 1024), b'M')
    else if leb 1024 bytes
    then (bytes / 1024, b'K')
    else (bytes, b'B')
