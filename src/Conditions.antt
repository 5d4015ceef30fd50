-- ===== src/Conditions.antt =====
-- sdk/apis/third_party/conditions, a copy of another project's library: conditions as its types have
-- them, and its functions as parameters.
use kbind.Base.{ℕ, String, Bool, Option}

pub record Condition : Type 0 where
  pub condition_type : String
  pub status : String
  pub severity : String
  pub last_transition_time : ℕ
  pub reason : String
  pub message : String

-- MarkTrue, MarkFalse, GetMessage, Get, IsFalse, Set and SetSummary on an object whose conditions are a `K`.
pub record Conditions (K : Type 0) : Type 0 where
  pub mark_true : (condition : String) → K → K
  pub mark_false : (condition reason severity message : String) → K → K
  pub get_message : K → (condition : String) → String
  pub get_condition : K → (condition : String) → Option Condition
  pub is_false : K → (condition : String) → Bool
  pub set_condition : Condition → K → K
  pub set_summary : K → K

abbrev pub severity_error : String
severity_error = "Error"

abbrev pub severity_warning : String
severity_warning = "Warning"

abbrev pub severity_info : String
severity_info = "Info"

abbrev pub severity_none : String
severity_none = ""
