-- ===== src/Schema/Support.antt =====
-- The rows of the tickets of the support, of the reports, and of the chat messages. The texts of a ticket's events are left
-- out.
use borrow_hub.Common.{ℕ, String, Option, List}
use borrow_hub.Schema.Enums.{
  ReportTargetType, ReportStatus, SupportTicketStatus, SupportTicketPriority,
  SupportTicketEventType,
}

pub record SupportTicketEvent : Type 0 where
  pub actor_id : ℕ
  pub event_type : SupportTicketEventType

pub record SupportTicket : Type 0 where
  pub id : ℕ
  pub requester_id : ℕ
  pub assigned_to_id : Option ℕ
  pub rental_id : Option ℕ
  pub dispute_id : Option ℕ
  pub report_id : Option ℕ
  pub subject : String
  pub description : String
  pub status : SupportTicketStatus
  pub priority : SupportTicketPriority
  pub updated_at : ℕ
  pub resolved_at : Option ℕ
  pub events : List SupportTicketEvent

-- A chat message; its metadata are left out.
pub record Message : Type 0 where
  pub id : ℕ
  pub sender_id : ℕ
  pub content : String
  pub attachment_url : Option String

pub record Report : Type 0 where
  pub id : ℕ
  pub reporter_id : ℕ
  pub target_type : ReportTargetType
  pub target_id : ℕ
  pub reason : String
  pub description : String
  pub status : ReportStatus
  pub assigned_to_id : Option ℕ
  pub resolution_summary : Option String
  pub resolved_at : Option ℕ
