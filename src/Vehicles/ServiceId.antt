-- ===== src/Vehicles/ServiceId.antt =====
-- The service identifier of a vehicle (types/vehicleeta.go): its line, its number, its order.
use disturbancesmlx.Prelude.{
  ℕ, ◌+◌, ◌-◌, ◌*◌, ◌≡◌, refl, ◌↔◌, Bool, true, false, not, ◌&&◌, ◌||◌, Option, none, some, List,
  [], ◌∷◌, arith, ℤ, pos, sub_ℕ, ltb_ℤ, ltb, leb, ◌==◌, if◌then◌else◌, ◌≤◌, ap, ◌++◌,
}
use disturbancesmlx.Clock.{max_int64}

-- VehicleIDisSpecial, whose test asks for a byte below '0' and above '9' at once.
unfoldable pub is_special : List ℕ → Bool
is_special [] = true
is_special (c ∷ cs) = ltb c b'0' && ltb b'9' c

abbrev pub last_byte : ℕ → List ℕ → ℕ
last_byte c [] = c
last_byte c (d ∷ ds) = last_byte d ds

abbrev pub but_last : ℕ → List ℕ → List ℕ
but_last c [] = []
but_last c (d ∷ ds) = c ∷ but_last d ds

-- VehicleIDgetLineString; `none` is its error.
unfoldable pub line_of : List ℕ → Option (List ℕ)
line_of [] = none
line_of (c ∷ cs) = if is_special (c ∷ cs) then some (c ∷ []) else some (last_byte c cs ∷ [])

abbrev pub is_digit : ℕ → Bool
is_digit c = leb b'0' c && leb c b'9'

unfoldable pub all_digits : List ℕ → Bool
all_digits [] = true
all_digits (c ∷ cs) = is_digit c && all_digits cs

-- The value of a run of digits, after the digits that are read already.
unfoldable pub decimal_from : ℕ → List ℕ → ℕ
decimal_from acc [] = acc
decimal_from acc (c ∷ cs) = decimal_from (acc * 10 + (c - b'0')) cs

-- The digits of strconv.Atoi: an empty or foreign text gives 0, and what is out of range the bound.
unfoldable pub digits_value : ℕ → List ℕ → ℕ
digits_value bound [] = 0
digits_value bound (c ∷ cs) =
    if all_digits (c ∷ cs)
    then (let n = decimal_from 0 (c ∷ cs) in if leb n bound then n else bound)
    else 0

-- strconv.Atoi with its error dropped.
unfoldable pub atoi : List ℕ → ℤ
atoi [] = pos 0
atoi (c ∷ cs) =
    if c == b'-'
    then sub_ℕ 0 (digits_value (max_int64 + 1) cs)
    else if c == b'+'
    then pos (digits_value max_int64 cs)
    else pos (digits_value max_int64 (c ∷ cs))

-- VehicleIDgetNumber
unfoldable pub number_of : List ℕ → ℤ
number_of [] = pos 0
number_of (c ∷ cs) = if is_special (c ∷ cs) then atoi cs else atoi (but_last c cs)

-- The order of Go's strings.
unfoldable pub bytes_less : List ℕ → List ℕ → Bool
bytes_less [] [] = false
bytes_less [] (y ∷ ys) = true
bytes_less (x ∷ xs) [] = false
bytes_less (x ∷ xs) (y ∷ ys) = ltb x y || (x == y && bytes_less xs ys)

abbrev line_or_empty : List ℕ → List ℕ
line_or_empty v = elim (line_of v) [ none ↦ [] | some l ↦ l ]

-- VehicleIDLessFunc
unfoldable pub id_less : List ℕ → List ℕ → Bool
id_less vi vj =
    if is_special vi && not (is_special vj)
    then true
    else if not (is_special vi) && is_special vj
    then false
    else if bytes_less (line_or_empty vi) (line_or_empty vj)
    then true
    else if bytes_less (line_or_empty vj) (line_or_empty vi)
    then false
    else ltb_ℤ (number_of vi) (number_of vj)

-- No identifier with a byte in it is ever special.
pub is_special_iff : (v : List ℕ) → (is_special v ≡ true) ↔ (v ≡ [])
unfolding is_special
is_special_iff [] = (λ h. refl, λ h. refl)
is_special_iff (c ∷ cs) = (λ h. absurd (ground arith), λ h. cc)

bytes_less_irrefl : (xs : List ℕ) → bytes_less xs xs ≡ false
unfolding bytes_less
bytes_less_irrefl [] = refl
bytes_less_irrefl (x ∷ xs) = ground (arith, bytes_less_irrefl xs)

bytes_less_trans :
    (xs ys zs : List ℕ)
    → bytes_less xs ys ≡ true
    → bytes_less ys zs ≡ true
    → bytes_less xs zs ≡ true
unfolding bytes_less
bytes_less_trans [] [] zs h k = cc
bytes_less_trans [] (y ∷ ys) [] h k = cc
bytes_less_trans [] (y ∷ ys) (z ∷ zs) h k = refl
bytes_less_trans (x ∷ xs) [] zs h k = cc
bytes_less_trans (x ∷ xs) (y ∷ ys) [] h k = cc
bytes_less_trans (x ∷ xs) (y ∷ ys) (z ∷ zs) h k = ground (arith, bytes_less_trans xs ys zs)

bytes_less_total : (xs ys : List ℕ) → bytes_less xs ys ≡ false → bytes_less ys xs ≡ false → xs ≡ ys
unfolding bytes_less
bytes_less_total [] [] h k = refl
bytes_less_total [] (y ∷ ys) h k = cc
bytes_less_total (x ∷ xs) [] h k = cc
bytes_less_total (x ∷ xs) (y ∷ ys) h k = ground (arith, bytes_less_total xs ys)

-- Sorting by VehicleIDLessFunc is sorting by a strict order: no identifier is before itself.
id_less_irrefl : (v : List ℕ) → id_less v v ≡ false
unfolding id_less
id_less_irrefl v = ground (arith, bytes_less_irrefl (line_or_empty v))

-- VehicleIDLessFunc is a strict order, as sort.Slice wants: irreflexive and transitive.
pub id_less_strict :
    (u v w : List ℕ)
    → (id_less u u ≡ false) × (id_less u v ≡ true → id_less v w ≡ true → id_less u w ≡ true)
unfolding id_less
id_less_strict u v w = (
  unfold id_less in id_less_irrefl u,
  λ h k. ground (
    arith,
    bytes_less_trans (line_or_empty u) (line_or_empty v) (line_or_empty w),
    bytes_less_total (line_or_empty u) (line_or_empty v),
    bytes_less_total (line_or_empty v) (line_or_empty w),
    bytes_less_irrefl (line_or_empty u),
    bytes_less_trans (line_or_empty v) (line_or_empty w) (line_or_empty u),
    bytes_less_trans (line_or_empty w) (line_or_empty u) (line_or_empty v),
  ),
)

last_byte-snoc : (c d : ℕ) (ds : List ℕ) → last_byte c (ds ++ d ∷ []) ≡ d
last_byte-snoc c d [] = refl
last_byte-snoc c d (e ∷ ds) = last_byte-snoc e d ds

but_last-snoc : (c d : ℕ) (ds : List ℕ) → but_last c (ds ++ d ∷ []) ≡ c ∷ ds
but_last-snoc c d [] = refl
but_last-snoc c d (e ∷ ds) = ap (◌∷◌ c) (but_last-snoc e d ds)

not_special : (c : ℕ) (cs : List ℕ) → is_special (c ∷ cs) ≡ false
unfolding is_special
not_special c cs = ground arith

atoi_digits :
    (d : ℕ) (ds : List ℕ)
    → all_digits (d ∷ ds) ≡ true
    → decimal_from 0 (d ∷ ds) ≤ max_int64
    → atoi (d ∷ ds) ≡ pos (decimal_from 0 (d ∷ ds))
unfolding atoi digits_value all_digits
atoi_digits d ds digits fits = ground arith

-- An identifier that is a run of digits and then one byte has that byte for its line and the
-- digits' value for its number, if the value fits an int64.
pub service_id_parts :
    (d : ℕ) (ds : List ℕ) (line : ℕ)
    → all_digits (d ∷ ds) ≡ true
    → decimal_from 0 (d ∷ ds) ≤ max_int64
    → (line_of (d ∷ ds ++ line ∷ []) ≡ some (line ∷ []))
      × (number_of (d ∷ ds ++ line ∷ []) ≡ pos (decimal_from 0 (d ∷ ds)))
unfolding line_of number_of
service_id_parts d ds line digits fits =
    let regular = not_special d (ds ++ line ∷ []) in
    (
      rw (regular, last_byte-snoc d line ds),
      rw (regular, but_last-snoc d line ds) (atoi_digits d ds digits fits),
    )
