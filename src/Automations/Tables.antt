-- ===== src/Automations/Tables.antt =====
-- What appending, saving and deleting a rule does to the table of rules.
use phone_app.Base.{
  ℕ, ◌+◌, ◌≤◌, ◌≡◌, ◌⊎◌, inr, refl, true, some, List, [], ◌∷◌, ◌++◌, arith, ◌==◌, if◌then◌else◌,
}
use phone_app.Automations.{Rule}
use phone_app.Automations.Once.{times}
use phone_app.Automations.Owned.{ids, distinct}
use phone_app.Automations.Changes.{find_rule, save_rule, delete_rule}
use phone_app.Automations.Fitting.{fits, all_fit, all_below}

pub all_below-times :
    (n k : ℕ) (rules : List Rule) → all_below n rules ≡ true → n ≤ k → times k (ids rules) ≡ 0
all_below-times n k [] h le = refl
all_below-times n k (rule ∷ rules) h le = ground (arith, all_below-times n k rules)

pub find_rule-append :
    (j : ℕ) (rules : List Rule) (new : Rule)
    → times new.rule_id (ids rules) ≡ 0
    → find_rule j (rules ++ new ∷ []) ≡ (if new.rule_id == j then some new else find_rule j rules)
unfolding find_rule
find_rule-append j [] new h = ground arith
find_rule-append j (rule ∷ rules) new h = ground (arith, find_rule-append j rules new)

times-ids-append :
    (j : ℕ) (rules : List Rule) (new : Rule)
    → times j (ids (rules ++ new ∷ [])) ≡ times j (ids rules) + (if new.rule_id == j then 1 else 0)
times-ids-append j [] new = ground arith
times-ids-append j (rule ∷ rules) new = ground (arith, times-ids-append j rules new)

-- A new rule whose id is the bound of the others.
pub append-kept :
    (n : ℕ) (rules : List Rule) (new : Rule)
    → new.rule_id ≡ n
    → fits new ≡ true
    → all_fit rules ≡ true
    → all_below n rules ≡ true
    → distinct (ids rules) ≡ true
    → (all_fit (rules ++ new ∷ []) ≡ true)
      × (all_below (n + 1) (rules ++ new ∷ []) ≡ true)
      × (distinct (ids (rules ++ new ∷ [])) ≡ true)
append-kept n [] new same good f b d = ground arith
append-kept n (rule ∷ rules) new same good f b d =
    ground (arith, append-kept n rules new same good, times-ids-append rule.rule_id rules new)

save_rule-ids : (new : Rule) (rules : List Rule) → ids (save_rule new rules) ≡ ids rules
unfolding save_rule
save_rule-ids new [] = refl
save_rule-ids new (rule ∷ rules) = ground (arith, save_rule-ids new rules)

pub save_rule-kept :
    (n : ℕ) (new : Rule) (rules : List Rule)
    → fits new ≡ true
    → all_fit rules ≡ true
    → all_below n rules ≡ true
    → distinct (ids rules) ≡ true
    → (all_fit (save_rule new rules) ≡ true)
      × (all_below n (save_rule new rules) ≡ true)
      × (distinct (ids (save_rule new rules)) ≡ true)
unfolding save_rule
save_rule-kept n new [] good f b d = ground arith
save_rule-kept n new (rule ∷ rules) good f b d =
    ground (arith, save_rule-kept n new rules good, save_rule-ids new rules)

pub find_rule-save_rule :
    (j : ℕ) (new : Rule) (rules : List Rule)
    → (new.rule_id ≡ j) ⊎ (find_rule j (save_rule new rules) ≡ find_rule j rules)
unfolding find_rule save_rule
find_rule-save_rule j new [] = inr refl
find_rule-save_rule j new (rule ∷ rules) = ground (arith, find_rule-save_rule j new rules)

delete_rule-times :
    (j k : ℕ) (rules : List Rule)
    → times j (ids rules) ≡ 0
    → times j (ids (delete_rule k rules)) ≡ 0
unfolding delete_rule
delete_rule-times j k [] h = refl
delete_rule-times j k (rule ∷ rules) h = ground (arith, delete_rule-times j k rules)

pub delete_rule-kept :
    (n k : ℕ) (rules : List Rule)
    → all_fit rules ≡ true
    → all_below n rules ≡ true
    → distinct (ids rules) ≡ true
    → (all_fit (delete_rule k rules) ≡ true)
      × (all_below n (delete_rule k rules) ≡ true)
      × (distinct (ids (delete_rule k rules)) ≡ true)
unfolding delete_rule
delete_rule-kept n k [] f b d = ground arith
delete_rule-kept n k (rule ∷ rules) f b d =
    ground (arith, delete_rule-kept n k rules, delete_rule-times rule.rule_id k rules)

pub find_rule-delete_rule :
    (j k : ℕ) (rules : List Rule)
    → (k ≡ j) ⊎ (find_rule j (delete_rule k rules) ≡ find_rule j rules)
unfolding find_rule delete_rule
find_rule-delete_rule j k [] = inr refl
find_rule-delete_rule j k (rule ∷ rules) = ground (arith, find_rule-delete_rule j k rules)

-- A rule that is found has the id, and is as all rules are.
pub find_rule-fits :
    (k : ℕ) (rules : List Rule) {rule : Rule}
    → find_rule k rules ≡ some rule
    → all_fit rules ≡ true
    → (fits rule ≡ true) × (rule.rule_id ≡ k)
unfolding find_rule
find_rule-fits k [] e h = ground arith
find_rule-fits k (first ∷ rules) {rule} e h = ground (arith, find_rule-fits k rules {rule = rule})
