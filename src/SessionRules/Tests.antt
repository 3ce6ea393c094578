-- ===== src/SessionRules/Tests.antt =====
-- Statements judged by a product's rules.
use havuz.Base.{◌≡◌, refl, none, some, [], ◌∷◌}
use havuz.Chars.{codes}
use havuz.Flow.{session_parameter, temp_table, unclassified}
use havuz.SessionRules.{SessionRules, classify, leading_words}
use havuz.SessionRules.Specific.{SharedBy, sharing_needs_longer_rule}

abbrev rules : SessionRules
rules = record {
  reset_query = some (codes "RESET");
  pins =
      record { words = codes "SET"; reason = session_parameter }
      ∷ record { words = codes "CREATE GLOBAL TEMPORARY TABLE"; reason = temp_table }
      ∷ [];
  shareable = codes "SELECT" ∷ codes "INSERT" ∷ codes "SET LOCAL" ∷ [];
}

set_pins : classify rules (codes "set role app") ≡ some session_parameter
unfolding classify
set_pins = refl

local_set_is_shared : classify rules (codes "\n (set  local x = 1);") ≡ none
unfolding classify
local_set_is_shared = refl

words_end : classify rules (codes "selective()") ≡ some unclassified
unfolding classify
words_end = refl

-- Only the first statement of a text is looked at.
second_statement_is_missed : classify rules (codes "SELECT 1; SET ROLE app") ≡ none
unfolding classify
second_statement_is_missed = refl

sharing_needs_longer_rule_example :
    SharedBy (leading_words (codes "SET LOCAL x = 1")) rules.pins rules.shareable
unfolding classify
sharing_needs_longer_rule_example = sharing_needs_longer_rule rules (codes "SET LOCAL x = 1") refl
