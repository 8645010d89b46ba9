-- ===== src/Automation/ChangeFeed/Order.antt =====
-- src/mentorapp/automation/change_feed.py: the keyset order, and what a watermark leaves to read.
use cbm_mentoring_app.Base.{
  ℕ, zero, suc, ◌≡◌, ◌∙◌, refl, Bool, true, false, ◌&&◌, not, Option, none, some, List, [], ◌∷◌,
  nat_eq, keep, take, drop, All, arith, All-keep, keep-All, Option-cases, inl, inr, subst,
}
use cbm_mentoring_app.Automation.ChangeFeed.{
  ChangeFeedEntry, FeedWatermark, watermark_of, is_after, entries_after, last,
}

abbrev pub is_later : ChangeFeedEntry → ChangeFeedEntry → Bool
is_later e f = is_after (some (watermark_of e)) f

-- The rows come in strictly ascending order of the keyset, as `ORDER BY` on a key gives them.
abbrev pub IsAscending : List ChangeFeedEntry → Type 0
IsAscending [] = Unit
IsAscending (e ∷ es) = All (λ f. is_later e f ≡ true) es × IsAscending es

is_later_self : (e : ChangeFeedEntry) → is_later e e ≡ false
unfolding is_after watermark_of
is_later_self e = ground arith

is_later-asym : (e f : ChangeFeedEntry) → is_later e f ≡ true → is_later f e ≡ false
unfolding is_after watermark_of
is_later-asym e f h = ground (arith, h)

is_after_trans :
    (since : Option FeedWatermark) (e f : ChangeFeedEntry)
    → is_after since e ≡ true
    → is_later e f ≡ true
    → is_after since f ≡ true
unfolding is_after watermark_of
is_after_trans none e f h k = refl
is_after_trans (some w) e f h k = ground (arith, h, k)

keep-IsAscending :
    (p : ChangeFeedEntry → Bool) (es : List ChangeFeedEntry)
    → IsAscending es
    → IsAscending (keep p es)
keep-IsAscending p [] h = tt
keep-IsAscending p (e ∷ es) h =
    ground (arith, h, keep-IsAscending p es, All-keep (λ f. is_later e f ≡ true) p es)

All-last :
    (P : ChangeFeedEntry → Type 0) (n : ℕ) (es : List ChangeFeedEntry) (e : ChangeFeedEntry)
    → All P es
    → last (take n es) ≡ some e
    → P e
All-last P zero es e h q = ground (arith, q)
All-last P (suc n) [] e h q = ground (arith, q)
All-last P (suc n) (x ∷ es) e h q = elim (Option-cases (last (take n es))) [
  | inl p ↦ subst P (ground (arith, q, p)) h.0
  | inr (f, p) ↦ All-last P n es e h.1 (ground (arith, q, p))
]

drop-none : (n : ℕ) (es : List ChangeFeedEntry) → last (take n es) ≡ none → drop n es ≡ es
drop-none zero es q = refl
drop-none (suc n) [] q = refl
drop-none (suc n) (x ∷ es) q = ground (arith, q)

first_is_last :
    (n : ℕ) (es : List ChangeFeedEntry) (x e : ChangeFeedEntry)
    → last (take (suc n) (x ∷ es)) ≡ some e
    → last (take n es) ≡ none
    → x ≡ e
first_is_last n es x e q p = ground (arith, q, p)

rest_has_last :
    (n : ℕ) (es : List ChangeFeedEntry) (x e f : ChangeFeedEntry)
    → last (take (suc n) (x ∷ es)) ≡ some e
    → last (take n es) ≡ some f
    → last (take n es) ≡ some e
rest_has_last n es x e f q p = ground (arith, q, p)

first_batch :
    (n : ℕ) (es : List ChangeFeedEntry) (x : ChangeFeedEntry)
    → All (λ f. is_later x f ≡ true) es
    → last (take n es) ≡ none
    → keep (is_later x) (x ∷ es) ≡ drop n es
first_batch n es x h p =
    ground (arith, is_later_self x, keep-All (is_later x) es h, drop-none n es p)

-- What comes after the last entry of a batch is what the batch left.
after-batch :
    (n : ℕ) (es : List ChangeFeedEntry) (e : ChangeFeedEntry)
    → IsAscending es
    → last (take n es) ≡ some e
    → keep (is_later e) es ≡ drop n es
after-batch zero es e h q = ground (arith, q)
after-batch (suc n) [] e h q = ground (arith, q)
after-batch (suc n) (x ∷ es) e h q = elim (Option-cases (last (take n es))) [
  | inl p ↦
      let same = first_is_last n es x e q p in
      subst (λ y. keep (is_later y) (x ∷ es) ≡ drop n es) same (first_batch n es x h.0 p)
  | inr (f, p) ↦
      let there = rest_has_last n es x e f q p in
      ground (
        arith,
        is_later-asym x e (All-last (λ f. is_later x f ≡ true) n es e h.0 there),
        after-batch n es e h.1 there,
      )
]

-- The rows after a later watermark are the later ones of those after an earlier.
keep-later :
    (feed : List ChangeFeedEntry) (since : Option FeedWatermark) (e : ChangeFeedEntry)
    → is_after since e ≡ true
    → entries_after feed (some (watermark_of e)) ≡ keep (is_later e) (entries_after feed since)
unfolding entries_after
keep-later [] since e h = refl
keep-later (f ∷ feed) since e h =
    ground (arith, h, is_after_trans since e f h, keep-later feed since e h)

entries_after-All :
    (feed : List ChangeFeedEntry) (since : Option FeedWatermark)
    → All (λ e. is_after since e ≡ true) (entries_after feed since)
unfolding entries_after
entries_after-All [] since = tt
entries_after-All (e ∷ feed) since = ground (arith, entries_after-All feed since)

entries_after-IsAscending :
    (feed : List ChangeFeedEntry) (since : Option FeedWatermark)
    → IsAscending feed
    → IsAscending (entries_after feed since)
unfolding entries_after
entries_after-IsAscending feed since h =
    keep-IsAscending (λ e. not e.is_deleted && is_after since e) feed h

-- A batch takes the first rows after its watermark, and the watermark it gives leaves the others.
pub batch_lem :
    (feed : List ChangeFeedEntry) (since : Option FeedWatermark) (n : ℕ) (e : ChangeFeedEntry)
    → IsAscending feed
    → last (take n (entries_after feed since)) ≡ some e
    → entries_after feed (some (watermark_of e)) ≡ drop n (entries_after feed since)
batch_lem feed since n e h q =
    keep-later feed since e (
      All-last (λ e. is_after since e ≡ true) n (entries_after feed since) e
        (entries_after-All feed since) q)
    ∙ after-batch n (entries_after feed since) e (entries_after-IsAscending feed since h) q
