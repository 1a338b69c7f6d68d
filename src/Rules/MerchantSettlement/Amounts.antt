-- ===== src/Rules/MerchantSettlement/Amounts.antt =====
-- The amount of a proposed manual payout.
use back_office_fintech.Common.{String, Option, none, some, ◌≡◌, arith, str_eq, true}
use back_office_fintech.Common.Int.{ℤ, pos, ◌<ℤ◌}
use back_office_fintech.Common.Dict.{Dict, lookup}
use back_office_fintech.Common.Value.{Value}
use back_office_fintech.Schemas.Enums.{ActionType}
use back_office_fintech.Schemas.Evidence.{EvidenceBundle, MerchantSettlementLedger}
use back_office_fintech.Rules.MerchantSettlement.{
  Calendar, amount_or_zero, decide_merchant_settlement,
}

-- The net amount of the settlement ledger, 0 where there is none.
abbrev pub ledger_net : Option MerchantSettlementLedger → ℤ
ledger_net none = pos 0
ledger_net (some l) = amount_or_zero l.net_settlement_amount

abbrev pub detail : String → Option (Dict Value) → Option Value
detail k none = none
detail k (some d) = lookup k d

-- A proposed manual payout is of the ledger's net amount, which is positive, and is a draft only.
pub payout_amount_from_ledger :
    (cal : Calendar) (e : EvidenceBundle)
    → (decide_merchant_settlement cal e).action ≡ ActionType.create_manual_payout_draft
    → (detail "amount" (decide_merchant_settlement cal e).details
        ≡ some (Value.num (ledger_net e.merchant_settlement_ledger)))
      × (pos 0 <ℤ ledger_net e.merchant_settlement_ledger)
      × (detail "draft_only" (decide_merchant_settlement cal e).details ≡ some (Value.bool true))
unfolding decide_merchant_settlement lookup str_eq
payout_amount_from_ledger cal e h = ground arith
