-- ===== src/Iflist/Tests.antt =====
-- Tests of the list of interfaces, and concrete cases of the theorems on it.
use libcsp_dphi.Base.{◌≡◌, refl, arith, none, List, [], ◌∷◌}
use libcsp_dphi.Iface.{Iface}
use libcsp_dphi.Iflist.{add, get_by_subnet, same_prefix}
use libcsp_dphi.Iflist.Search.{Apart, visit, filter_that, in_subnet, get_by_subnet-visits}
use libcsp_dphi.Iflist.Change.{IsNew, add_new, add_again}
use libcsp_dphi.Samples.{iface}

abbrev two : List Iface
two = iface 1 ∷ iface 2 ∷ []

two-Apart : Apart two
two-Apart = ((λ e. omega (arith, e), tt), (tt, tt))

get_by_subnet-visits_example :
    visit (get_by_subnet 2 8) 3 none two ≡ filter_that (in_subnet 2 8) two
get_by_subnet-visits_example = get_by_subnet-visits 2 8 two two-Apart

three-IsNew : IsNew (iface 3) (3 ∷ 0 ∷ []) two
unfolding same_prefix
three-IsNew = ((λ e. omega (arith, e), refl), ((λ e. omega (arith, e), refl), tt))

add_new_example : add (iface 3) two ≡ iface 1 ∷ iface 2 ∷ iface 3 ∷ []
add_new_example = add_new (iface 3) (3 ∷ 0 ∷ []) two refl three-IsNew

add_again_example : add (iface 1) two ≡ iface 1 ∷ []
add_again_example = add_again (iface 1) (1 ∷ 0 ∷ []) [] (iface 2 ∷ []) refl tt
