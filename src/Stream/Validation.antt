-- ===== src/Stream/Validation.antt =====
-- internal/adapter/stream/types.go and the validators of buffer.go. A floating-point constant below
-- zero is the conversion of the integer.
use Prim.Native.Char.{code}
use project_mittens.Prelude.{
  ℕ, suc, Bool, true, ◌&&◌, ◌||◌, String, Option, none, some, List, leb, ◌==◌, if◌then◌else◌,
}
use project_mittens.Prelude.Int.{ℤ, pos, negsuc, ltb_ℤ}
use project_mittens.Float.{Float}

pub data StreamError : Type 0 where
  empty_driver_id empty_load_id invalid_coordinates invalid_hos invalid_revenue : StreamError
  delivery_before_pickup : StreamError

pub record EldDriverPingDto {ℓ} (W : Type ℓ) : Type ℓ where
  pub driver_id : String
  pub timestamp : ℤ
  pub lat : W
  pub lon : W
  pub node_id : String
  pub drive_hours_remaining : W
  pub duty_hours_remaining : W
  pub pta_epoch : ℤ
  pub assigned_load_id : String
  pub equipment_type : String
  pub endorsements : List String

pub record TmsLoadTenderDto {ℓ} (W : Type ℓ) : Type ℓ where
  pub load_id : String
  pub timestamp : ℤ
  pub origin_node_id : String
  pub origin_lat : W
  pub origin_lon : W
  pub destination_node_id : String
  pub dest_lat : W
  pub dest_lon : W
  pub pickup_earliest_epoch : ℤ
  pub pickup_latest_epoch : ℤ
  pub delivery_earliest_epoch : ℤ
  pub delivery_latest_epoch : ℤ
  pub revenue : W
  pub required_equipment : String
  pub required_endorsements : List String

pub record TenderCancelDto : Type 0 where
  pub load_id : String
  pub reason : String
  pub timestamp : ℤ

-- `unicode.IsSpace`
abbrev is_space : ℕ → Bool
is_space c =
    (leb 9 c && leb c 13)
    || (c == 32)
    || (c == 133)
    || (c == 160)
    || (c == 5760)
    || (leb 8192 c && leb c 8202)
    || (c == 8232)
    || (c == 8233)
    || (c == 8239)
    || (c == 8287)
    || (c == 12288)

-- `strings.TrimSpace(s) == ""`: every character is a space.
unfoldable pub is_blank : String → Bool
is_blank String.[] = true
is_blank (String.◌∷◌ c s) = is_space (code c) && is_blank s

module _ {ℓ} {W : Type ℓ} ⦃f : Float W⦄ where
  abbrev pub is_outside : ℕ → W → Bool
  is_outside below x =
      f.lt x (f.of_int (negsuc below))
      || f.lt (f.of_int (pos (suc below))) x
      || f.is_nan x
      || f.is_inf x

  abbrev pub is_amount_bad : W → Bool
  is_amount_bad x = f.lt x f.nought || f.is_nan x || f.is_inf x

  -- `none` is a nil error.
  unfoldable pub validate_driver_ping : EldDriverPingDto W → Option StreamError
  validate_driver_ping ping =
      if is_blank ping.driver_id
      then some empty_driver_id
      else if is_outside 89 ping.lat || is_outside 179 ping.lon
      then some invalid_coordinates
      else if is_amount_bad ping.drive_hours_remaining || is_amount_bad ping.duty_hours_remaining
      then some invalid_hos
      else none

  unfoldable pub validate_load_tender : TmsLoadTenderDto W → Option StreamError
  validate_load_tender tender =
      if is_blank tender.load_id
      then some empty_load_id
      else if is_outside 89 tender.origin_lat
          || is_outside 179 tender.origin_lon
          || is_outside 89 tender.dest_lat
          || is_outside 179 tender.dest_lon
      then some invalid_coordinates
      else if is_amount_bad tender.revenue
      then some invalid_revenue
      else if ltb_ℤ tender.delivery_latest_epoch tender.pickup_earliest_epoch
          && ltb_ℤ (pos 0) tender.delivery_latest_epoch
      then some delivery_before_pickup
      else none
