-- ===== src/Approval/Request.antt =====
-- The requests for a human decision (src/istos/agent/approval.py).
use istos.Prelude.{ℕ, Bool, true, false, ◌&&◌, Option, String, ltb, leb, text_key, number_key}
use istos.Json.{Fields}

pub data ApprovalState : Type 0 where
  pending approved denied expired : ApprovalState

pub record ApprovalRequest : Type 0 where
  pub id : String
  pub tool : String
  pub arguments : Fields
  pub prefix : Option String
  pub state : ApprovalState
  pub requested_at : ℕ
  pub expires_at : ℕ
  pub reason : Option String
  pub requester : Option String
  pub conversation_id : Option String
  pub decided_by : Option String
  pub decided_at : ℕ
  pub note : Option String

-- `expires_at > 0 and time.time() >= expires_at`
unfoldable pub is_expired : ℕ → ApprovalRequest → Bool
is_expired now r = ltb 0 r.expires_at && leb r.expires_at now

unfoldable pub is_pending : ApprovalRequest → Bool
is_pending r = elim (r.state) [
  | pending ↦ true
  | approved ↦ false
  | denied ↦ false
  | expired ↦ false
]
