-- ===== src/Api/Writes/Found.antt =====
-- src/mentorapp/api/write_engine.py: what `find_similar_records` finds.
use cbm_mentoring_app.Base.{
  ℕ, String, ◌≡◌, ◌∙◌, refl, sym, ap, Bool, true, false, ◌&&◌, ◌||◌, Option, none, some, List, [],
  ◌∷◌, ◌++◌, map, keep, any, nat_eq, string_eq, if◌then◌else◌, arith, if_cases, append-nil,
  append_assoc,
}
use cbm_mentoring_app.Base.Dict
use cbm_mentoring_app.Base.Dict.{Dict}
use cbm_mentoring_app.Base.Exec.{Result, ok, err}
use cbm_mentoring_app.Api.Writes.Rules.{Value, Parsers, SchemaRegistry}
use cbm_mentoring_app.Api.Writes.Changes.{Registry}
use cbm_mentoring_app.Api.Writes.Updates.{EntityRecord}
use cbm_mentoring_app.Api.Writes.Matching.{
  TextMethods, MatchError, Similar, find_similar_records, scan_rules, matching, noted, put_all,
  is_given, rule_matches, rule_problem, unless_problem, named_if_any, sorted_rules,
}
use cbm_mentoring_app.Api.Writes.Creates.{has_candidates, holds_any}

abbrev holds_row : List EntityRecord → Bool
holds_row [] = false
holds_row (_ ∷ _) = true

holds_row-keep :
    (t : EntityRecord → Bool) (rows : List EntityRecord) → holds_row (keep t rows) ≡ any t rows
holds_row-keep t [] = refl
holds_row-keep t (r ∷ rows) = ground (arith, holds_row-keep t rows)

holds_any-put :
    (d : Dict ℕ EntityRecord) (id : ℕ) (r : EntityRecord) → holds_any (Dict.put d id r) ≡ true
unfolding Dict.put
holds_any-put [] id r = refl
holds_any-put ((j, q) ∷ d) id r = ground arith

holds_any-put_all :
    (rs : List EntityRecord) (d : Dict ℕ EntityRecord)
    → holds_any (put_all d rs) ≡ (holds_any d || holds_row rs)
holds_any-put_all [] d = ground arith
holds_any-put_all (r ∷ rs) d =
    ground (arith, holds_any-put_all rs (Dict.put d r.record_id r), holds_any-put d r.record_id r)

abbrev pub OfFound : (Similar → Type 0) → Result MatchError Similar → Type 0
OfFound P (err e) = Unit
OfFound P (ok similar) = P similar

OfFound-both :
    (P Q : Similar → Type 0) (found : Result MatchError Similar)
    → OfFound P found
    → OfFound Q found
    → OfFound (λ s. P s × Q s) found
OfFound-both P Q (err e) h k = tt
OfFound-both P Q (ok s) h k = (h, k)

OfFound-map :
    {P Q : Similar → Type 0} (found : Result MatchError Similar)
    → ((s : Similar) → P s → Q s)
    → OfFound P found
    → OfFound Q found
OfFound-map (err e) f h = tt
OfFound-map (ok s) f h = f s h

module _ (methods : TextMethods) (p : Parsers) (columns : List String) (values : Dict String Value)
    (table : List EntityRecord) where
  -- A live record of the table matches every field of a rule that the values fill.
  abbrev pub is_hit : String × List SchemaRegistry → Bool
  is_hit (name, rows) =
      is_given methods p columns values rows
      && any (rule_matches methods p columns values false rows) table

  unless-OfFound :
      (P : Similar → Type 0) (problem : Option MatchError) (found : Result MatchError Similar)
      → OfFound P found
      → OfFound P (unless_problem methods p columns values table false problem found)
  unless-OfFound P none found h = h
  unless-OfFound P (some e) found h = tt

  abbrev scanned : Dict String (List SchemaRegistry) → Similar → Result MatchError Similar
  scanned = scan_rules methods p columns values table false

  scan_rules-hits :
      (rules : Dict String (List SchemaRegistry)) (similar : Similar)
      → OfFound
          (λ s. has_candidates s ≡ (has_candidates similar || any is_hit rules))
          (scanned rules similar)
  unfolding scan_rules
  scan_rules-hits [] similar = ground arith
  scan_rules-hits ((name, rows) ∷ rules) similar =
      let found = matching methods p columns values table false rows in
      if_cases
        (OfFound
          (λ s. has_candidates s ≡ (has_candidates similar || any is_hit ((name, rows) ∷ rules))))
        (is_given methods p columns values rows)
        (unless_problem methods p columns values table false
          (rule_problem methods p columns values name rows)
          (scanned rules (noted methods p columns values table false similar name found)))
        (scanned rules similar)
        (λ given.
          unless-OfFound
            (λ s. has_candidates s ≡ (has_candidates similar || any is_hit ((name, rows) ∷ rules)))
            (rule_problem methods p columns values name rows)
            (scanned rules (noted methods p columns values table false similar name found))
            (OfFound-map
              (scanned rules (noted methods p columns values table false similar name found))
              (λ s h. ground (
                arith,
                given,
                h,
                holds_any-put_all found similar.candidates,
                holds_row-keep (rule_matches methods p columns values false rows) table,
              ))
              (scan_rules-hits rules
                (noted methods p columns values table false similar name found))))
        (λ lacking.
          OfFound-map (scanned rules similar) (λ s h. ground (arith, lacking, h))
            (scan_rules-hits rules similar))

  named-keep :
      (name : String) (t : EntityRecord → Bool) (rows : List EntityRecord)
      → named_if_any name (keep t rows) ≡ (if any t rows then name ∷ [] else [])
  named-keep name t [] = refl
  named-keep name t (r ∷ rows) = ground (arith, named-keep name t rows)

  abbrev pub hit_names : Dict String (List SchemaRegistry) → List String
  hit_names rules = map (λ (name, _). name) (keep is_hit rules)

  scan_rules-names :
      (rules : Dict String (List SchemaRegistry)) (similar : Similar)
      → OfFound
          (λ s. s.matched_rule_names ≡ similar.matched_rule_names ++ hit_names rules)
          (scanned rules similar)
  unfolding scan_rules
  scan_rules-names [] similar = sym (append-nil similar.matched_rule_names)
  scan_rules-names ((name, rows) ∷ rules) similar =
      let hits = keep (rule_matches methods p columns values false rows) table in
      let next = noted methods p columns values table false similar name hits in
      let step : is_given methods p columns values rows ≡ true
          → named_if_any name hits ++ hit_names rules ≡ hit_names ((name, rows) ∷ rules) =
        λ given.
          ap (λ xs. xs ++ hit_names rules)
            (named-keep name (rule_matches methods p columns values false rows) table)
          ∙ ground (arith, given) in
      if_cases
        (OfFound (λ s.
          s.matched_rule_names ≡ similar.matched_rule_names ++ hit_names ((name, rows) ∷ rules)))
        (is_given methods p columns values rows)
        (unless_problem methods p columns values table false
          (rule_problem methods p columns values name rows) (scanned rules next))
        (scanned rules similar)
        (λ given.
          unless-OfFound
            (λ s.
              s.matched_rule_names ≡ similar.matched_rule_names ++ hit_names ((name, rows) ∷ rules))
            (rule_problem methods p columns values name rows) (scanned rules next)
            (OfFound-map (scanned rules next)
              (λ s h.
                h
                ∙ append_assoc similar.matched_rule_names (named_if_any name hits) (hit_names rules)
                ∙ ap (λ xs. similar.matched_rule_names ++ xs) (step given))
              (scan_rules-names rules next)))
        (λ lacking.
          OfFound-map (scanned rules similar) (λ s h. ground (arith, lacking, h))
            (scan_rules-names rules similar))

  -- Some rule of the registry is filled, and a live record matches it.
  abbrev pub has_duplicate : Registry → Bool
  has_duplicate registry = any is_hit (sorted_rules registry)

  -- What the duplicate check finds: whether there is a duplicate, and the rules that it matches.
  abbrev pub IsFinding : Registry → Similar → Type 0
  IsFinding registry s =
      (has_candidates s ≡ has_duplicate registry)
      × (s.matched_rule_names ≡ hit_names (sorted_rules registry))

  pub find_similar_records-IsFinding :
      (registry : Registry)
      → OfFound
          (IsFinding registry)
          (find_similar_records methods p columns values table false registry)
  unfolding find_similar_records
  find_similar_records-IsFinding registry =
      let start : Similar = record { candidates = []; matched_rule_names = [] } in
      OfFound-both (λ s. has_candidates s ≡ has_duplicate registry)
        (λ s. s.matched_rule_names ≡ hit_names (sorted_rules registry))
        (scanned (sorted_rules registry) start) (scan_rules-hits (sorted_rules registry) start)
        (scan_rules-names (sorted_rules registry) start)
