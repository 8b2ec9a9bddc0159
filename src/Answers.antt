-- ===== src/Answers.antt =====
-- What a request comes to in the components that show the message of what was thrown.
use justprojects.Base.{ℕ, String}

-- what is thrown: an `ApiError`, any other `Error`, or something else
pub data Cause : Type 0 where
  api_error : (message : String) (status : ℕ) → Cause
  error : (message : String) → Cause
  thrown_value : Cause

pub data Ended {ℓ} (A : Type ℓ) : Type ℓ where
  answered : A → Ended A
  failed : Cause → Ended A

-- `caught instanceof Error ? caught.message : t(key)`
abbrev pub message_of : String → Cause → String
message_of key (api_error message status) = message
message_of key (error message) = message
message_of key thrown_value = key
