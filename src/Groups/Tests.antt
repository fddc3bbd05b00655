-- ===== src/Groups/Tests.antt =====
-- Groups of the sample catalog.
use trolley.Base.{◌≡◌, refl, String, false, [], ◌∷◌, ok, map, ◌==◌, if◌then◌else◌, is_space, strip}
use trolley.Catalog.{Catalog, Group}
use trolley.Catalog.Sample.{sample, bob, analysts}
use trolley.Groups.{resolve_each, resolve_groups, set_user_groups, sorted_set, delete_group}
use trolley.Groups.Members.{is_member, is_selected, set_user_groups-is_member}

abbrev lower : String → String
lower s = s

abbrev sellers : Group
sellers = record { id = 31; name = "sellers"; description = "" }

abbrev two_groups : Catalog
two_groups = record sample { groups = analysts ∷ sellers ∷ [] }

deleted_group_has_no_members : is_member (delete_group "analysts" sample).1 30 2 ≡ false
unfolding delete_group is_space strip
deleted_group_has_no_members = refl

set_user_groups-is_member_example :
    ((set_user_groups lower " bob@x.org" ("sellers" ∷ "sellers" ∷ []) two_groups).0
      ≡ ok ("bob@x.org", sorted_set (map (λ s. s.name) (sellers ∷ []))))
    × (is_member (set_user_groups lower " bob@x.org" ("sellers" ∷ "sellers" ∷ []) two_groups).1 30 2
        ≡ (if 2 == 2 then is_selected 30 (sellers ∷ []) else is_member two_groups 30 2))
unfolding resolve_groups resolve_each is_space strip
set_user_groups-is_member_example =
    set_user_groups-is_member lower " bob@x.org" ("sellers" ∷ "sellers" ∷ []) (sellers ∷ []) bob
      two_groups 30 2 refl refl
