-- ===== src/Rules/SourceOfTruth.antt =====
-- src/fintech_agent/rules/source_of_truth_rules.py: which system is trusted for which data.
use back_office_fintech.Common.{String, Option, none, some, List, [], ◌∷◌, str_eq, if◌then◌else◌}

pub data SourceOfTruth : Type 0 where
  wallet_ledger refund_table provider_status transaction : SourceOfTruth

pub record TrustRule : Type 0 where
  pub source : SourceOfTruth
  pub authoritative_for : String
  pub notes : String

abbrev pub trust_hierarchy : List TrustRule
trust_hierarchy =
    record {
      source = SourceOfTruth.wallet_ledger;
      authoritative_for = "money_in_wallet";
      notes = "Refund amount MUST come from ledger.debit_amount, never from complaint.";
    }
    ∷ record {
      source = SourceOfTruth.refund_table;
      authoritative_for = "refund_lifecycle";
      notes = "Only source for whether refund was requested/approved/executed.";
    }
    ∷ record {
      source = SourceOfTruth.provider_status;
      authoritative_for = "service_delivery";
      notes = "Only source for whether ticket was issued or bill was confirmed.";
    }
    ∷ record {
      source = SourceOfTruth.transaction;
      authoritative_for = "metadata";
      notes = "Transaction status can LAG behind ledger. Do not trust for money state.";
    }
    ∷ []

first_authority : String → List TrustRule → Option SourceOfTruth
first_authority domain [] = none
first_authority domain (rule ∷ rules) =
    if str_eq rule.authoritative_for domain then some rule.source else first_authority domain rules

-- `none` is the `ValueError`.
unfoldable pub get_authority_for : String → Option SourceOfTruth
unfolding first_authority
get_authority_for domain = first_authority domain trust_hierarchy
