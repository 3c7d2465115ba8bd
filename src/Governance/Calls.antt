-- ===== src/Governance/Calls.antt =====
-- What the operations of services/research/app/governance_incidents.py share.
use arkana.Base.{
  ◌≡◌, refl, ℕ, Bool, true, false, Option, none, some, Result, ok, raised, String, str_eq,
  if◌then◌else◌,
}
use arkana.Governance.{Store}

-- A call's clock, the id that its new row is given, and what other sessions commit between its reads
-- and its own commit.
pub record Call : Type 0 where
  pub now : ℕ
  pub new_id : String
  pub others : Store → Store

abbrev pub guarded : {A : Type 0} → Bool → String → Result A → Result A
guarded test message rest = if test then rest else raised message

abbrev pub found : {A : Type 0} → Option A → String → Result A
found none message = raised message
found (some a) message = ok a

abbrev pub instead : {A : Type 0} → Result A → String → Result A
instead (ok a) message = ok a
instead (raised m) message = raised message

pub guarded-eq-ok :
    {A : Type 0} (test : Bool) (message : String) {rest : Result A} {a : A}
    → guarded test message rest ≡ ok a
    → (test ≡ true) × (rest ≡ ok a)
guarded-eq-ok true message e = (refl, e)
guarded-eq-ok false message e = cc

pub found-eq-ok :
    {A : Type 0} (r : Option A) (message : String) {a : A} → found r message ≡ ok a → r ≡ some a
found-eq-ok none message e = cc
found-eq-ok (some b) message e = cc

-- What a commit finds in the place of its own row, and answers.
abbrev pub winner : {A : Type 0} → Option A → (A → String) → String → String → Result (A × Bool)
winner none fingerprint_of fingerprint message = raised message
winner (some w) fingerprint_of fingerprint message =
    if str_eq (fingerprint_of w) fingerprint then ok (w, true) else raised message
