-- ===== src/DraftTools/Refunds.antt =====
-- What a call of the refund tool answers.
use back_office_fintech.Common.{
  ℕ, zero, suc, String, false, Option, none, some, List, ◌≡◌, ◌∙◌, refl, sym, ap, subst, arith,
  str_eq, if◌then◌else◌,
}
use back_office_fintech.Common.Int.{ℤ, pos, negsuc}
use back_office_fintech.Common.Text.{lower, strip}
use back_office_fintech.Common.Dict.{contains, insert, lookup, lookup-insert}
use back_office_fintech.Schemas.Enums.{ActionType}
use back_office_fintech.Schemas.Evidence.{RefundStatus}
use back_office_fintech.Rules.Idempotency.{generate_idempotency_key, is_duplicate_action}
use back_office_fintech.MoneyActionGuard.{guard_action}
use back_office_fintech.DraftTools.{
  Created, DraftStore, RefundRequestDraft, create_refund_request_draft, has_empty_id, is_blank,
  positive, refund_steps,
}

-- The arguments of a call of the refund tool.
pub record RefundCall : Type 0 where
  pub case_id : String
  pub transaction_id : String
  pub user_id : String
  pub amount : ℤ
  pub reason : String
  pub evidence : List String
  pub refund_status : Option RefundStatus

abbrev pub call_refund : (String → String) → RefundCall → DraftStore → Created RefundRequestDraft
call_refund sha c store =
    create_refund_request_draft sha c.case_id c.transaction_id c.user_id c.amount c.reason
      c.evidence c.refund_status store

abbrev pub refund_key : (String → String) → RefundCall → ℕ → String
refund_key sha c n =
    generate_idempotency_key sha c.transaction_id ActionType.create_refund_request_draft n

-- Nothing is wrong with the call, and no such draft is stored.
pub record IsAccepted (sha : String → String) (c : RefundCall) (store : DraftStore) (n : ℕ)
    : Type 0 where
  pub amount : positive c.amount ≡ some n
  pub evidence : is_blank c.evidence ≡ false
  pub is_new : contains (refund_key sha c n) store.refund_drafts ≡ false
  pub open_refund :
      is_duplicate_action c.transaction_id ActionType.create_refund_request_draft n c.refund_status
      ≡ false
  pub named : has_empty_id c.case_id c.transaction_id c.user_id ≡ false

-- The draft of the call: nothing of it is changed, swapped or lost.
pub record IsDraftOf (sha : String → String) (c : RefundCall) (d : RefundRequestDraft)
    : Type 0 where
  pub key : d.idempotency_key ≡ refund_key sha c d.amount
  pub case_id : d.case_id ≡ c.case_id
  pub transaction_id : d.transaction_id ≡ c.transaction_id
  pub user_id : d.user_id ≡ c.user_id
  pub amount : c.amount ≡ pos d.amount
  pub reason : d.reason ≡ c.reason
  pub evidence : d.evidence_summary ≡ c.evidence

-- The draft is stored under its key, and every other draft of the four kinds is what it was.
pub record IsStored (d : RefundRequestDraft) (store after : DraftStore) : Type 0 where
  pub drafts :
      (k : String)
      → lookup k after.refund_drafts
        ≡ (if str_eq d.idempotency_key k then some d else lookup k store.refund_drafts)
  pub reconciliation : after.reconciliation_drafts ≡ store.reconciliation_drafts
  pub responses : after.response_drafts ≡ store.response_drafts
  pub force_success : after.force_success_drafts ≡ store.force_success_drafts

-- What a call answers: it raises where it is not accepted for any amount, and else creates its draft.
abbrev pub Answers :
    (String → String) → RefundCall → DraftStore → Created RefundRequestDraft → Type 0
Answers sha c store (Created.raised e) = (n : ℕ) → ¬ IsAccepted sha c store n
Answers sha c store (Created.created after d) =
    IsAccepted sha c store d.amount × IsDraftOf sha c d × IsStored d store after

abbrev steps_of :
    (String → String) → RefundCall → DraftStore → Option ℕ → Created RefundRequestDraft
steps_of sha c store o =
    refund_steps sha c.case_id c.transaction_id c.user_id c.reason c.evidence c.refund_status store
      o

-- The guard returns.
call_refund-steps :
    (sha : String → String) (c : RefundCall) (store : DraftStore) (o : Option ℕ)
    → positive c.amount ≡ o
    → call_refund sha c store ≡ steps_of sha c store o
unfolding create_refund_request_draft guard_action str_eq lower strip
call_refund-steps sha c store o h = ap (λ p. steps_of sha c store p) h

abbrev draft_of : (String → String) → RefundCall → ℕ → RefundRequestDraft
draft_of sha c n = record {
  idempotency_key = refund_key sha c n;
  case_id = c.case_id;
  transaction_id = c.transaction_id;
  user_id = c.user_id;
  amount = n;
  reason = c.reason;
  evidence_summary = c.evidence;
}

abbrev stored : (String → String) → RefundCall → DraftStore → ℕ → DraftStore
stored sha c store n = record store {
  refund_drafts = insert (refund_key sha c n) (draft_of sha c n) store.refund_drafts;
}

accepted-created :
    (sha : String → String) (c : RefundCall) (store : DraftStore) (n : ℕ)
    → IsAccepted sha c store n
    → steps_of sha c store (some n) ≡ Created.created (stored sha c store n) (draft_of sha c n)
unfolding refund_steps
accepted-created sha c store n h = ground arith

-- What the steps return or raise, by the tests.
abbrev OnlyAccepts :
    (String → String) → RefundCall → DraftStore → ℕ → Created RefundRequestDraft → Type 0
OnlyAccepts sha c store n (Created.raised e) = Unit
OnlyAccepts sha c store n (Created.created after d) = IsAccepted sha c store n

steps_of-OnlyAccepts :
    (sha : String → String) (c : RefundCall) (store : DraftStore) (n : ℕ)
    → positive c.amount ≡ some n
    → OnlyAccepts sha c store n (steps_of sha c store (some n))
unfolding refund_steps
steps_of-OnlyAccepts sha c store n p = ground arith

pub positive_pos : (x : ℤ) (n : ℕ) → positive x ≡ some n → x ≡ pos n
positive_pos (pos zero) n h = absurd (ground arith)
positive_pos (pos (suc m)) n h = ground arith
positive_pos (negsuc m) n h = absurd (ground arith)

accepted-Answers :
    (sha : String → String) (c : RefundCall) (store : DraftStore) (n : ℕ)
    → IsAccepted sha c store n
    → Answers sha c store (Created.created (stored sha c store n) (draft_of sha c n))
accepted-Answers sha c store n h = (
  h,
  record {
    key = refl;
    case_id = refl;
    transaction_id = refl;
    user_id = refl;
    amount = positive_pos c.amount n h.amount;
    reason = refl;
    evidence = refl;
  },
  record {
    drafts = λ k. lookup-insert (refund_key sha c n) k (draft_of sha c n) store.refund_drafts;
    reconciliation = refl;
    responses = refl;
    force_success = refl;
  },
)

amount_steps-Answers :
    (sha : String → String) (c : RefundCall) (store : DraftStore) (n : ℕ)
    (r : Created RefundRequestDraft)
    → positive c.amount ≡ some n
    → steps_of sha c store (some n) ≡ r
    → OnlyAccepts sha c store n r
    → Answers sha c store r
amount_steps-Answers sha c store n (Created.raised e) p q h = λ m ok.
    let same : n ≡ m = ground (arith, p, ok.amount) in
    let created = accepted-created sha c store n (subst (IsAccepted sha c store) (sym same) ok) in
    ground (arith, q, created)
amount_steps-Answers sha c store n (Created.created after d) p q h =
    subst (Answers sha c store) (sym (accepted-created sha c store n h) ∙ q)
      (accepted-Answers sha c store n h)

steps_of-Answers :
    (sha : String → String) (c : RefundCall) (store : DraftStore) (o : Option ℕ)
    → positive c.amount ≡ o
    → Answers sha c store (steps_of sha c store o)
unfolding refund_steps
steps_of-Answers sha c store none p = λ n ok. ground (arith, p, ok.amount)
steps_of-Answers sha c store (some n) p =
    amount_steps-Answers sha c store n _ p refl (steps_of-OnlyAccepts sha c store n p)

-- A call of the refund tool raises an exception exactly where the amount is not positive, the evidence
-- is blank, a draft of its transaction and amount is stored, its refund is already under way, or an
-- identifier is empty. Otherwise it creates the draft that has the identifiers, the amount, the
-- reason and the evidence of the call, stores it under its key, and leaves every other draft of
-- every kind as it was.
pub call_refund-Answers :
    (sha : String → String) (c : RefundCall) (store : DraftStore)
    → Answers sha c store (call_refund sha c store)
call_refund-Answers sha c store =
    subst (Answers sha c store) (sym (call_refund-steps sha c store _ refl))
      (steps_of-Answers sha c store (positive c.amount) refl)
