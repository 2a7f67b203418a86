-- ===== src/Accounts/Pairing.antt =====
-- types/androidpairrequest.go: when the pair that a device asks for becomes active.
use disturbancesmlx.Prelude.{
  ℕ, ◌+◌, ◌*◌, String, Bool, ◌&&◌, ◌||◌, Option, none, some, List, [], ◌∷◌, str_eq, pos, ◌-ℤ◌,
  ltb_ℤ, select, if◌then◌else◌,
}
use disturbancesmlx.Clock.{Time, Duration, zero_time, minute, hour, sub, wrap_int64}
use disturbancesmlx.Vehicles.Eta.{duration_max}

-- AndroidPairRequest. The address is the text that IP.String() gives, which is also what the table
-- holds, so that two addresses are equal when their texts are.
pub record AndroidPairRequest : Type 0 where
  pub nonce : String
  pub request_time : Time
  pub android_id : String
  pub ip_address : String

-- maxDuration(diff, -diff), the negation wrapping around in int64.
unfoldable pub distance : Time → Time → Duration
distance t u = duration_max (sub t u) (wrap_int64 (pos 0 -ℤ sub t u))

-- The penalty for a past request of the same device, and of the same address.
unfoldable pub device_penalty : Duration → ℕ
device_penalty diff =
    if ltb_ℤ diff (pos (5 * minute))
    then 2 * hour
    else if ltb_ℤ diff (pos (30 * minute))
    then hour
    else if ltb_ℤ diff (pos (2 * hour))
    then 30 * minute
    else if ltb_ℤ diff (pos (24 * hour))
    then 10 * minute
    else minute

unfoldable pub address_penalty : Duration → ℕ
address_penalty diff =
    if ltb_ℤ diff (pos (5 * minute))
    then hour
    else if ltb_ℤ diff (pos (30 * minute))
    then 30 * minute
    else if ltb_ℤ diff (pos (2 * hour))
    then 15 * minute
    else if ltb_ℤ diff (pos (24 * hour))
    then 5 * minute
    else minute

-- The WHERE of the query.
abbrev pub related : AndroidPairRequest → AndroidPairRequest → Bool
related r p =
    str_eq r.nonce p.nonce || str_eq r.android_id p.android_id || str_eq r.ip_address p.ip_address

abbrev pub penalty : AndroidPairRequest → AndroidPairRequest → ℕ
penalty r p =
    (if str_eq r.android_id p.android_id
      then device_penalty (distance r.request_time p.request_time)
      else 0)
    + (if str_eq r.ip_address p.ip_address
        then address_penalty (distance r.request_time p.request_time)
        else 0)

-- The nonce of the request was used within the skew.
abbrev pub replays : Duration → AndroidPairRequest → AndroidPairRequest → Bool
replays skew r p = str_eq r.nonce p.nonce && ltb_ℤ (distance r.request_time p.request_time) skew

-- The loop over the past requests; `none` is its early return.
unfoldable pub accumulate :
    Duration → AndroidPairRequest → List AndroidPairRequest → Time → Option Time
accumulate skew r [] activation = some activation
accumulate skew r (p ∷ ps) activation =
    if replays skew r p then none else accumulate skew r ps (activation + penalty r p)

-- request.CalculateActivationTime(node, maxTimestampSkew), with the three readings of the clock.
-- The error is that of the query; no pair is granted at the zero time.
unfoldable pub calculate_activation_time :
    (fails : Bool) (t0 t1 t2 : Time)
    → Duration
    → AndroidPairRequest
    → List AndroidPairRequest
    → Option Time
calculate_activation_time fails t0 t1 t2 skew r table =
    if fails then none else elim (accumulate skew r (select (related r) table) t0) [
      | none ↦ some zero_time
      | some activation ↦
          some (if ltb_ℤ (pos (24 * hour)) (sub activation t1) then t2 + 24 * hour else activation)
    ]
