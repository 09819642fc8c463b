-- ===== src/Session.antt =====
-- internal/session/session.go. A time of 0 is Go's zero time.
use safeops_agent.Prelude.{ℕ, String, Bool, List, Dict}

pub data MessageRole : Type 0 where
  role_user role_assistant role_system : MessageRole
  other_role : String → MessageRole

pub record Message : Type 0 where
  pub id : String
  pub role : MessageRole
  pub content : String
  pub task_id : String
  pub created_at : ℕ

pub record Session : Type 0 where
  pub id : String
  pub name : String
  pub archived : Bool
  pub messages : List Message
  pub summary : String
  pub pinned_context : Dict String
  pub selected_resources : List String
  pub created_at : ℕ
  pub updated_at : ℕ
