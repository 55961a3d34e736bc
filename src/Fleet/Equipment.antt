-- ===== src/Fleet/Equipment.antt =====
-- internal/domain/model/equipment.go: what equipment can haul. `strings.EqualFold`, which goes by the
-- tables of Unicode, is a parameter.
pub mod Handling
use project_mittens.Prelude.{Bool, true, false, not, ◌&&◌, String, List, [], ◌∷◌, if◌then◌else◌}
use project_mittens.Prelude.Dict.{str_eq}
use project_mittens.Fleet.Resource.{Equipment}

abbrev pub equip_dry_van : String
equip_dry_van = "VAN_53"

abbrev pub equip_reefer : String
equip_reefer = "REEFER_53"

abbrev pub equip_any : String
equip_any = "ANY"

-- Part 1 of `CanHandle`.
unfoldable pub handles_type : Equipment → String → Bool
handles_type e required_type =
    if not (str_eq required_type "") && not (str_eq required_type equip_any)
    then if str_eq required_type equip_dry_van
      then not (not (str_eq e.type equip_dry_van) && not (str_eq e.type equip_reefer))
      else str_eq e.type required_type
    else true

module _ (equal_fold : String → String → Bool) where
  unfoldable pub any_equal : List String → String → Bool
  any_equal [] target = false
  any_equal (end ∷ endorsements) target =
      let rest = any_equal endorsements target in if equal_fold end target then true else rest

  unfoldable pub has_endorsement : Equipment → String → Bool
  unfolding any_equal
  has_endorsement e target = any_equal e.endorsements target

  -- Part 2 of `CanHandle`.
  unfoldable pub has_all : Equipment → List String → Bool
  has_all e [] = true
  has_all e (req ∷ required) =
      let rest = has_all e required in if not (has_endorsement e req) then false else rest

  unfoldable pub can_handle : Equipment → String → List String → Bool
  can_handle e required_type required_endorsements =
      if handles_type e required_type then has_all e required_endorsements else false
