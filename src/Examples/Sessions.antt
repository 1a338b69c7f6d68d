-- ===== src/Examples/Sessions.antt =====
-- The theorems on chat sessions, applied.
use back_office_fintech.Common.{◌≤◌, some, List, [], ◌∷◌, ◌≡◌, refl, str_eq}
use back_office_fintech.Common.Value.{nat}
use back_office_fintech.Conversation.{CaseState, ConversationState, new_case, new_conversation}
use back_office_fintech.Conversation.Case.{record_claim, supersede_claims}
use back_office_fintech.Conversation.Case.History.{
  CaseCall, IsCoherent, perform, perform_all, perform_all-new-IsCoherent,
}
use back_office_fintech.Conversation.Session.{
  active_case, archive_and_create, archive_case, create_case, find_active, restore_case,
  restore_last, switch_to_case, update_first,
}
use back_office_fintech.Conversation.Session.Reached.{
  IsActiveCase, IsNew, Reached, Step, count_active, reached-one_active,
}
use back_office_fintech.Conversation.Session.Returning.{archive_and_create-switch_to_case}

-- A claim of 5, corrected to 7.
abbrev corrected_calls : List CaseCall
corrected_calls =
    CaseCall.claim "C1" (("amount_claimed", nat 5) ∷ [])
    ∷ CaseCall.correct "C2" (("amount_claimed", nat 7) ∷ [])
    ∷ []

abbrev corrected_case : CaseState
corrected_case =
    supersede_claims "C2" (("amount_claimed", nat 7) ∷ [])
      (record_claim "C1" (("amount_claimed", nat 5) ∷ []) (new_case "A" "wallet_topup"))

calls_performed : perform_all corrected_calls (new_case "A" "wallet_topup") ≡ some corrected_case
unfolding perform_all perform
calls_performed = refl

perform_all-new-IsCoherent_example : IsCoherent corrected_case
perform_all-new-IsCoherent_example =
    perform_all-new-IsCoherent "A" "wallet_topup" corrected_calls corrected_case calls_performed

abbrev empty_session : ConversationState
empty_session = new_conversation "S"

abbrev one_case : ConversationState
one_case = archive_and_create "A" "wallet_topup" empty_session

abbrev two_cases : ConversationState
two_cases = archive_and_create "B" "train_ticket" one_case

first_IsNew : IsNew "A" empty_session
unfolding str_eq
first_IsNew = (refl, refl)

second_IsNew : IsNew "B" one_case
unfolding str_eq archive_and_create create_case
second_IsNew = (refl, refl)

one_case-Reached : Reached one_case
one_case-Reached =
    Reached.next empty_session one_case (Reached.start "S")
      (Step.replace "A" "wallet_topup" first_IsNew)

two_cases-Reached : Reached two_cases
two_cases-Reached =
    Reached.next one_case two_cases one_case-Reached (Step.replace "B" "train_ticket" second_IsNew)

reached-one_active_example :
    (count_active two_cases.cases ≤ 1)
    × IsActiveCase two_cases.active_case_id (active_case two_cases)
reached-one_active_example = reached-one_active two_cases two_cases-Reached

active_id : one_case.active_case_id ≡ some "A"
unfolding archive_and_create create_case
active_id = refl

active_found : active_case one_case ≡ some (new_case "A" "wallet_topup")
unfolding active_case find_active archive_and_create create_case str_eq
active_found = refl

archive_and_create-switch_to_case_example :
    (switch_to_case "A" (archive_and_create "B" "train_ticket" one_case)).1
    ≡ some (new_case "A" "wallet_topup")
archive_and_create-switch_to_case_example =
    archive_and_create-switch_to_case one_case "A" "B" "train_ticket" (new_case "A" "wallet_topup")
      one_case-Reached active_id active_found

-- Restoring a case leaves the case active that was active before: both are active then.
restored_twice : count_active (restore_case "wallet_topup" two_cases).0.cases ≡ 2
unfolding restore_case restore_last archive_and_create archive_case update_first create_case str_eq
restored_twice = refl
