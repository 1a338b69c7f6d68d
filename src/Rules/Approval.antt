-- ===== src/Rules/Approval.antt =====
-- The actions for which the five rule engines ask for a human approval. It describes them
-- independently: each engine sets its flag by hand, decision by decision.
use back_office_fintech.Common.{Bool, true, false}
use back_office_fintech.Schemas.Enums.{ActionType}

abbrev pub needs_approval : ActionType → Bool
needs_approval ActionType.draft_customer_response = false
needs_approval ActionType.create_reconciliation_ticket_draft = false
needs_approval ActionType.request_identity_correction = false
needs_approval ActionType.request_bank_account_correction = false
needs_approval ActionType.create_merchant_email_draft = false
needs_approval ActionType.wait_sla = false
needs_approval ActionType.no_action = false
needs_approval _ = true
