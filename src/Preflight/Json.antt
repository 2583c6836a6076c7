-- ===== src/Preflight/Json.antt =====
-- What encoding/json makes of a report: the tree of a `map[string]any`, and the services of the
-- standard library on numbers and addresses, which are a parameter.
use kcover.Shared.{Bool, Option, String, if◌then◌else◌, none, some, ℤ, ◌==◌, text_eq}
use kcover.Preflight.Types.{Report}

mutual
  pub data Value (F : Type 0) : Type 0 where
    null : Value F
    bool : Bool → Value F
    num : F → Value F
    str : String → Value F
    arr : Items F → Value F
    obj : Fields F → Value F

  pub data Items (F : Type 0) : Type 0 where
    nil : Items F
    cons : Value F → Items F → Items F

  pub data Fields (F : Type 0) : Type 0 where
    end : Fields F
    field : String → Value F → Fields F → Fields F

-- A map access; a missing key is `none`.
unfoldable pub get_field : {F : Type 0} → String → Fields F → Option (Value F)
get_field k end = none
get_field k (field j v rest) = if j == k then some v else get_field k rest

-- float64 with what the program does to it, strconv.ParseFloat, netip.ParseAddr with its order, and
-- json.Unmarshal into the two shapes that the program asks for.
pub record Runtime : Type 1 where
  pub Float : Type 0
  pub of_int : ℤ → Float
  pub to_int : Float → ℤ
  pub is_whole : Float → Bool
  pub mul : Float → Float → Float
  pub div : Float → Float → Float
  pub lt : Float → Float → Bool
  pub le : Float → Float → Bool
  pub is_zero : Float → Bool
  pub parse_float : String → Option Float
  pub Address : Type 0
  pub parse_address : String → Option Address
  pub address_gt : Address → Address → Bool
  pub decode_report : String → Option Report
  pub decode_payload : String → Option (Fields Float)
