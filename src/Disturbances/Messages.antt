-- ===== src/Disturbances/Messages.antt =====
-- Status.ComputeMsgType of types/status.go and Disturbance.Categories of types/disturbance.go.
use Prim.Native.Char.{code}
use disturbancesmlx.Prelude.{
  ℕ, ◌+◌, String, ite, Bool, true, false, not, ◌&&◌, ◌||◌, Option, none, some, List, [], ◌∷◌, map,
  ltb, leb, ◌==◌, if◌then◌else◌,
}
use disturbancesmlx.Disturbances.Model.{
  Cause, signal, train, power, third_party, passenger, station, Extent, since, halted, between,
  delayed, Outlook, long_halt, long_wait, soon, under15, over15, StatusMessageType, report_begin,
  report_confirm, report_reconfirm, report_solved, ml_generic, ml_solved, ml_closed, ml_special,
  ml_composite, Status, Disturbance,
}
use disturbancesmlx.Vehicles.Passengers.{seen}

-- The code points of a text.
abbrev pub codes : String → List ℕ
codes String.[] = []
codes (String.◌∷◌ c s) = code c ∷ codes s

-- unicode.ToLower on ASCII and Latin-1, which hold every letter of the messages.
unfoldable pub lower : ℕ → ℕ
lower c =
    if leb b'A' c && leb c b'Z'
    then c + 32
    else if leb 0xc0 c && leb c 0xde && not (c == 0xd7)
    then c + 32
    else c

unfoldable pub is_prefix : List ℕ → List ℕ → Bool
is_prefix [] ys = true
is_prefix (x ∷ xs) [] = false
is_prefix (x ∷ xs) (y ∷ ys) = x == y && is_prefix xs ys

-- strings.Contains(text, part)
unfoldable pub contains : List ℕ → List ℕ → Bool
unfolding is_prefix
contains [] part = is_prefix part []
contains (x ∷ xs) part = is_prefix part (x ∷ xs) || contains xs part

-- `has part` says whether the lower-cased status contains the part.
module _ (has : String → Bool) where
  abbrev pub fixed_type : Option StatusMessageType
  fixed_type =
      if has "existem perturbações na circulação"
      then some ml_generic
      else if has "circulação normal"
      then some ml_solved
      else if has "serviço encerrado"
      then some ml_closed
      else if has "serviço especial"
      then some ml_special
      else if has "os utilizadores comunicaram problemas na circulação"
      then some report_begin
      else if has "vários utilizadores confirmaram problemas na circulação"
      then some report_confirm
      else if has "vários utilizadores confirmaram mais problemas na circulação"
      then some report_reconfirm
      else if has "já não existem relatos de problemas na circulação"
      then some report_solved
      else none

  abbrev pub cause_of : Option Cause
  cause_of =
      if has "avaria na sinalização"
      then some signal
      else if has "avaria de comboio"
      then some train
      else if has "falha de energia"
      then some power
      else if has "causa alheia ao metro"
      then some third_party
      else if has "incidente com passageiro"
      then some passenger
      else if has "anomalia na estação"
      then some station
      else none

  abbrev pub extent_of : Option Extent
  extent_of =
      if has "a circulação está interrompida desde as"
      then some since
      else if has "está interrompida a circulação." || has "a circulação está interrompida."
      then some halted
      else if has "está interrompida a circulação na linha entre as estações"
          || has "a circulação está interrompida entre as estações"
      then some between
      else if has "a circulação encontra-se com perturbações"
      then some delayed
      else none

  abbrev pub outlook_of : Option Outlook
  outlook_of =
      if has "não é possível prever a duração da interrupção, que poderá ser prolongada"
      then some long_halt
      else if has "o tempo de espera pode ser superior ao normal"
      then some long_wait
      else if has "esperamos retomar a circulação dentro de instantes"
          || has "esperamos retomar a circulação o mais breve possível"
      then some soon
      else if has "esperamos retomar a circulação num período inferior a 15 minutos"
      then some under15
      else if has "o tempo de reposição poderá ser superior a 15 minutos"
      then some over15
      else none

abbrev pub composite :
    Option Cause → Option Extent → Option Outlook → StatusMessageType → StatusMessageType
composite (some c) (some e) (some o) old = ml_composite c e o
composite none e o old = old
composite (some c) none o old = old
composite (some c) (some e) none old = old

-- The message type after ComputeMsgType; `old` is the type before.
unfoldable pub classify : (String → Bool) → StatusMessageType → StatusMessageType
classify has old = elim (fixed_type has) [
  | some t ↦ t
  | none ↦ composite (cause_of has) (extent_of has) (outlook_of has) old
]

abbrev pub text_has : String → String → Bool
text_has text part = contains (map lower (codes text)) (codes part)

-- status.ComputeMsgType()
unfoldable pub compute_msg_type : Status → Status
compute_msg_type s = record s { msg_type = classify (text_has s.text) s.msg_type }

pub data DisturbanceCategory : Type 0 where
  signal_failure train_failure power_outage third_party_fault : DisturbanceCategory
  passenger_incident station_anomaly community_reported : DisturbanceCategory

abbrev pub category_of_cause : Cause → DisturbanceCategory
category_of_cause signal = signal_failure
category_of_cause train = train_failure
category_of_cause power = power_outage
category_of_cause third_party = third_party_fault
category_of_cause passenger = passenger_incident
category_of_cause station = station_anomaly

-- The category that a status contributes: the matcher of composite messages, then the switch.
abbrev pub category_of : StatusMessageType → Option DisturbanceCategory
category_of (ml_composite c e o) = some (category_of_cause c)
category_of report_begin = some community_reported
category_of report_confirm = some community_reported
category_of report_reconfirm = some community_reported
category_of report_solved = some community_reported
category_of _ = none

unfoldable pub DisturbanceCategory-discrete : Discrete DisturbanceCategory
DisturbanceCategory-discrete = hlevel

-- The map `deduplicator`, as a function.
abbrev pub mark : DisturbanceCategory → (DisturbanceCategory → Bool) → DisturbanceCategory → Bool
mark c seen c' = ite (DisturbanceCategory-discrete c c') true (seen c')

-- The loop of Categories, with what it has seen.
unfoldable pub categories_from :
    (DisturbanceCategory → Bool) → List Status → List DisturbanceCategory
categories_from seen [] = []
categories_from seen (s ∷ ss) = elim (category_of s.msg_type) [
  | none ↦ categories_from seen ss
  | some c ↦ elim (seen c) [
    | true ↦ categories_from seen ss
    | false ↦ c ∷ categories_from (mark c seen) ss
  ]
]

-- disturbance.Categories()
unfoldable pub categories : Disturbance → List DisturbanceCategory
categories d = categories_from (λ c. false) d.statuses

-- disturbance.LatestStatus(), a loop over the statuses with the latest so far.
unfoldable pub latest_from : Option Status → List Status → Option Status
latest_from latest [] = latest
latest_from none (s ∷ ss) = latest_from (some s) ss
latest_from (some l) (s ∷ ss) = latest_from (if ltb l.time s.time then some s else some l) ss

unfoldable pub latest_status : Disturbance → Option Status
latest_status d = latest_from none d.statuses
