-- ===== src/Gateway/Listed.antt =====
-- gateway/client.py: what the three listings with a limit answer, by the documented meaning of their
-- queries.
use dbt_bigquery_ext.Prelude.{
  ℕ, ◌≤◌, ◌<◌, ◌==◌, ◌≡◌, ◌↔◌, ◌⊎◌, inl, inr, refl, sym, ltb, leb, Bool, true, false, Bool-cases,
  List, [], ◌∷◌, map, length, select, In, In-select, All, All-map, Text, codes, text_eq_iff, arith,
  leb→le,
}
use dbt_bigquery_ext.Prelude.Ints.{ℤ, pos, negsuc}
use dbt_bigquery_ext.Config.Names.{relation_full_name}
use dbt_bigquery_ext.Gateway.Db.{LogRow, IssueRow, Db}
use dbt_bigquery_ext.Gateway.Runs.{RunRow, RunDb}
use dbt_bigquery_ext.Gateway.Newest.{
  IsOrdered, newer, newest, newest-IsNewest, newest_all, clamp_limit, All-In,
}
use dbt_bigquery_ext.Gateway.Listings.{
  log_dict, log_time, log_id, is_of, list_change_tracking_log, run_dict, run_time, id_of_run,
  every_run, list_pooler_runs, issue_dict, issue_time, issue_id, has_status, list_permission_issues,
}

-- The page's size for a limit: the limit itself, from 1 to 500.
abbrev pub IsPageSize : ℤ → ℕ → Type 0
IsPageSize (negsuc k) n = n ≡ 1
IsPageSize (pos k) n =
    ((k ≡ 0) × (n ≡ 1)) ⊎ ((1 ≤ k) × (k ≤ 500) × (n ≡ k)) ⊎ ((500 < k) × (n ≡ 500))

clamp_limit-IsPageSize : (limit : ℤ) → IsPageSize limit (clamp_limit limit)
unfolding clamp_limit
clamp_limit-IsPageSize (negsuc k) = refl
clamp_limit-IsPageSize (pos k) = elim (Bool-cases (k == 0)) [
  | inl z ↦ inl (ground (arith, z), ground (arith, z))
  | inr z ↦ elim (Bool-cases (leb k 500)) [
    | inl l ↦ inr (inl (ground (arith, z), ground (arith, l), ground (arith, z, l)))
    | inr l ↦ inr (inr (ground (arith, l), ground (arith, l)))
  ]
]

module _ {A : Type 0} (time id : A → ℕ) where
  -- The row may follow the other: its time is earlier, or the same with an id that is no larger.
  abbrev pub Follows : A → A → Type 0
  Follows b a = (time b < time a) ⊎ ((time b ≡ time a) × (id b ≤ id a))

  abbrev pub IsLatestFirst : List A → Type 0
  IsLatestFirst [] = Unit
  IsLatestFirst (a ∷ rows) = All (λ b. Follows b a) rows × IsLatestFirst rows

  -- One page: no more rows than its size, all of the table and matching, latest first; a matching row
  -- that is left out may follow every row of the page, and there is none on a page that is not full.
  pub record IsPage (limit : ℤ) (Matches : A → Type 0) (rows page : List A) : Type 0 where
    pub size : ℕ
    pub is_size : IsPageSize limit size
    pub fits : length page ≤ size
    pub order : IsLatestFirst page
    pub sound : (a : A) → In a page → In a rows × Matches a
    pub rest : (a : A) → In a rows → Matches a → In a page ⊎ All (λ b. Follows a b) page
    pub full : (length page ≡ size) ⊎ ((a : A) → In a rows → Matches a → In a page)

  newer-Follows : (a b : A) → newer time id b a ≡ false → Follows b a
  newer-Follows a b h = elim (Bool-cases (ltb (time b) (time a))) [
    | inl l ↦ inl (ground (arith, l))
    | inr l ↦ inr (ground (arith, h, l), ground (arith, h, l))
  ]

  ordered-IsLatestFirst : (rows : List A) → IsOrdered time id rows → IsLatestFirst rows
  ordered-IsLatestFirst [] h = tt
  ordered-IsLatestFirst (a ∷ rows) h =
      (All-map _ _ (λ b k. newer-Follows a b k) rows h.0, ordered-IsLatestFirst rows h.1)

  newest-IsPage :
      (limit : ℤ) (keep : A → Bool) (Matches : A → Type 0) (rows : List A)
      → ((a : A) → (keep a ≡ true) ↔ Matches a)
      → IsPage limit Matches rows (newest time id limit keep rows)
  newest-IsPage limit keep Matches rows m =
      let page = newest time id limit keep rows in
      let kept = select keep rows in
      let (len, small, ordered, sound, rest) = newest-IsNewest time id limit keep rows in
      record {
        size = clamp_limit limit;
        is_size = clamp_limit-IsPageSize limit;
        fits = omega (arith, len);
        order = ordered-IsLatestFirst page ordered;
        sound = λ a i.
            let (j, k) = All-In (λ b. In b rows × (keep b ≡ true)) a page sound i in (j, (m a).0 k);
        rest = λ a i k.
            elim (All-In (λ c. In c page ⊎ All (λ b. newer time id c b ≡ false) page) a kept rest
              (In-select keep a rows i ((m a).1 k))) [
                | inl j ↦ inl j
                | inr l ↦ inr (All-map _ _ (λ b n. newer-Follows b a n) page l)
              ];
        full = elim (Bool-cases (leb (clamp_limit limit) (length kept))) [
          | inl l ↦ inl (omega (arith, len, leb→le _ _ l))
          | inr l ↦ inr (λ a i k.
              newest_all time id limit keep rows (ground (arith, l)) a
                (In-select keep a rows i ((m a).1 k)))
        ];
      }

-- The rows that each query is after.
abbrev pub IsOfTable : Text → Text → Text → LogRow → Type 0
IsOfTable project dataset table r = r.full_table_name ≡ relation_full_name project dataset table

abbrev pub IsAny : RunRow → Type 0
IsAny r = Unit {0}

abbrev pub IsInStatus : Text → IssueRow → Type 0
IsInStatus status r =
    ((r.is_open ≡ true) × (status ≡ codes "open"))
    ⊎ ((r.is_open ≡ false) × (status ≡ codes "resolved"))

has_status_iff : (status : Text) (r : IssueRow) → (has_status status r ≡ true) ↔ IsInStatus status r
has_status_iff status r = go r.is_open refl
  where
    go : (b : Bool) → r.is_open ≡ b → (has_status status r ≡ true) ↔ IsInStatus status r
    go true e = rw e (
      λ h. inl (refl, sym ((text_eq_iff (codes "open") status).0 h)),
      elim [ inl h ↦ (text_eq_iff (codes "open") status).1 (sym h.1) | inr h ↦ absurd (cc (h.0)) ],
    )
    go false e = rw e (
      λ h. inr (refl, sym ((text_eq_iff (codes "resolved") status).0 h)),
      elim [
        | inl h ↦ absurd (cc (h.0))
        | inr h ↦ (text_eq_iff (codes "resolved") status).1 (sym h.1)
      ],
    )

-- The listings of a relation's log, of the runs and of the issues with a status are one page each: at most
-- as many rows as the limit, taken up to 1 and down to 500, all of the table and matching, latest first;
-- a matching row that is left out is no later than any of the page, and none is left out of a page that is
-- not full.
pub listings-IsPage :
    (printed : ℕ → Text) (project dataset table status : Text) (limit : ℤ) (db : Db)
    (run_db : RunDb)
    → ((rows : List LogRow) × (list_change_tracking_log printed project dataset table limit db
          ≡ map (log_dict printed) rows)
        × IsPage log_time log_id limit (IsOfTable project dataset table) db.change_log rows)
      × ((runs : List RunRow) × (list_pooler_runs printed limit run_db
            ≡ map (run_dict printed) runs)
          × IsPage run_time id_of_run limit IsAny run_db.runs runs)
      × ((issues : List IssueRow) × (list_permission_issues printed status limit db
            ≡ map (issue_dict printed) issues)
          × IsPage issue_time issue_id limit (IsInStatus status) db.issues issues)
unfolding list_change_tracking_log list_pooler_runs list_permission_issues
listings-IsPage printed project dataset table status limit db run_db =
    let name = relation_full_name project dataset table in
    (
      (
        newest log_time log_id limit (is_of name) db.change_log,
        refl,
        newest-IsPage log_time log_id limit (is_of name) (IsOfTable project dataset table)
            db.change_log (λ r. text_eq_iff r.full_table_name name),
      ),
      (
        newest run_time id_of_run limit every_run run_db.runs,
        refl,
        newest-IsPage run_time id_of_run limit every_run IsAny run_db.runs
            (λ r. (λ e. tt, λ h. refl)),
      ),
      (
        newest issue_time issue_id limit (has_status status) db.issues,
        refl,
        newest-IsPage issue_time issue_id limit (has_status status) (IsInStatus status) db.issues
            (λ r. has_status_iff status r),
      ),
    )
