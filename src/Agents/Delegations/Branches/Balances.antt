-- ===== src/Agents/Delegations/Branches/Balances.antt =====
-- The invariant of the branches: the account of every root is balanced, and every change keeps it so.
use hive_os.Base.{
  ◌+◌, ◌≤◌, String, Bool, true, false, some, List, [], ◌∷◌, ◌++◌, ◌≡◌, refl, sym, ap, ◌∙◌, inl, inr,
  Bool-cases, arith, str_eq, str_eq_iff, if◌then◌else◌, All, All-append, All-map,
}
use hive_os.Table.{count_where, first_where, update_where}
use hive_os.Table.Rows.{
  All-update_where, count_where_found, count_where-update_hit, count_where-update_where,
  count_where_zero_All, All-unique, first_where_stronger,
}
use hive_os.Table.Members.{All-updated, All-pair, one_more}
use hive_os.Agents.Delegations.{Delegation, Ledger, has_id}
use hive_os.Agents.Delegations.Changes.{
  RowStep, RootOk, ChildOk, reserve_for, Change, nothing, followed, noted, updated, spent, leased,
  rooted, nested,
}
use hive_os.Agents.Delegations.Branches.Totals.{
  Allowance, branch_total, branch_total-update_where, total-new, total-other, count-new,
}

str_eq-flip : (x y : String) → str_eq x y ≡ false → str_eq y x ≡ false
str_eq-flip x y off = elim (Bool-cases (str_eq y x)) [
  | inl hit ↦
      absurd (let same = (str_eq_iff y x).0 hit in let on = (str_eq_iff x y).1 (sym same) in cc)
  | inr miss ↦ miss
]

module _ (a : Allowance) where
  -- The account of a root among the rows.
  abbrev pub Account : List Delegation → Delegation → Type 0
  Account ds d =
      str_eq d.root_delegation_id d.id ≡ true
      → (a.reserved d ≡ branch_total a.worker d.id ds) × (a.reserved d ≤ a.limit d)

  pub record Balanced (ds : List Delegation) : Type 0 where
    pub unique : (id : String) → count_where (has_id id) ds ≤ 1
    pub rooted_total :
        (id : String) → count_where (has_id id) ds ≡ 0 → branch_total a.worker id ds ≡ 0
    pub accounts : All (Account ds) ds

  updated-Balanced :
      (p : Delegation → Bool) (f : Delegation → Delegation) (ds : List Delegation)
      → ((d : Delegation) → p d ≡ true → RowStep d (f d))
      → Balanced ds
      → Balanced (update_where p f ds)
  updated-Balanced p f ds step h = record {
    unique = λ id. rw (counts id) (h.unique id);
    rooted_total = λ id gone. rw (totals id) (h.rooted_total id (sym (counts id) ∙ gone));
    accounts =
        All-map (Account ds) (Account (update_where p f ds)) (update_where p f ds)
          (λ d ok root. rw (totals d.id) (ok root))
          (All-update_where (Account ds) p f ds
            (λ d hit ok root.
              let s = step d hit in
              rw (a.kept_reserved s, a.kept_limit s, s.same_id)
                (ok (rw (s.same_id, s.same_root) at root)))
            h.accounts);
  }
    where
      counts :
          (id : String) → count_where (has_id id) (update_where p f ds) ≡ count_where (has_id id) ds
      counts id =
          count_where-update_hit p (has_id id) f ds
            (λ d hit. ap (λ t. str_eq t id) (step d hit).same_id)

      totals :
          (id : String)
          → branch_total a.worker id (update_where p f ds) ≡ branch_total a.worker id ds
      totals id =
          branch_total-update_where a id p f ds
            (λ d hit. ((step d hit).same_root, a.kept_worker (step d hit)))

  rooted-Balanced :
      (ds : List Delegation) (e : Delegation)
      → count_where (has_id e.id) ds ≡ 0
      → RootOk e
      → Balanced ds
      → Balanced (ds ++ e ∷ [])
  rooted-Balanced ds e fresh ok h = record {
    unique =
        λ id. one_more has_id ds e e.id id (λ hit. (str_eq_iff e.id id).0 hit) fresh (h.unique id);
    rooted_total = λ id gone.
        let both = sym (count-new a id ds e) ∙ gone in
        elim (Bool-cases (str_eq e.id id)) [
          | inl hit ↦ absurd (omega (arith, rw hit at both))
          | inr miss ↦
              let other : str_eq e.root_delegation_id id ≡ false = rw ok.own_root miss in
              total-other a id ds e other ∙ h.rooted_total id (omega (arith, rw miss at both))
        ];
    accounts =
        All-append (Account (ds ++ e ∷ [])) ds (e ∷ [])
          (All-pair (λ d. has_id e.id d ≡ false) (Account ds) (Account (ds ++ e ∷ [])) ds
            (λ d new acc root.
              let other : str_eq e.root_delegation_id d.id ≡ false =
                rw ok.own_root (str_eq-flip d.id e.id new) in
              rw (total-other a d.id ds e other) (acc root))
            (count_where_zero_All (has_id e.id) (has_id e.id) ds fresh) h.accounts)
          (
            λ root.
                let own = a.of_root ok in
                (
                  rw (total-new a e.id ds e, root)
                      (omega (arith, own.0, h.rooted_total e.id fresh)),
                  omega (arith, own.0, own.1),
                ),
            tt,
          );
  }

  module _ (ds : List Delegation) (r e : Delegation) (fresh : count_where (has_id e.id) ds ≡ 0)
      (there : first_where (has_id e.root_delegation_id) ds ≡ some r) (ok : ChildOk r e) where
    abbrev mid : List Delegation
    mid = update_where (has_id e.root_delegation_id) (reserve_for e) ds

    mid-count : (id : String) → count_where (has_id id) mid ≡ count_where (has_id id) ds
    mid-count id =
        count_where-update_where (has_id e.root_delegation_id) (has_id id) (reserve_for e) ds
          (λ d. refl)

    mid-total : (id : String) → branch_total a.worker id mid ≡ branch_total a.worker id ds
    mid-total id =
        branch_total-update_where a id (has_id e.root_delegation_id) (reserve_for e) ds
          (λ d hit. (refl, (a.reserves_only e d).0))

    -- The branch of an id that no row has is not the child's.
    foreign :
        (id : String) → count_where (has_id id) ds ≡ 0 → str_eq e.root_delegation_id id ≡ false
    foreign id gone = elim (Bool-cases (str_eq e.root_delegation_id id)) [
      | inl hit ↦
          let same : e.root_delegation_id ≡ id = (str_eq_iff e.root_delegation_id id).0 hit in
          let some_row : 1 ≤ count_where (has_id id) ds =
            rw (← same) (count_where_found (has_id e.root_delegation_id) ds r there) in
          absurd (omega (arith, gone, some_row))
      | inr miss ↦ miss
    ]

    nested-Account :
        (d : Delegation)
        → Account ds d
        → (has_id e.root_delegation_id d ≡ true → d ≡ r)
        → Account (mid ++ e ∷ []) (if has_id e.root_delegation_id d then reserve_for e d else d)
    nested-Account d acc only = elim (Bool-cases (has_id e.root_delegation_id d)) [
      | inl hit ↦
          let own : str_eq e.root_delegation_id d.id ≡ true =
            (str_eq_iff e.root_delegation_id d.id).1
              (sym ((str_eq_iff d.id e.root_delegation_id).0 hit)) in
          let room : a.reserved d + a.worker e ≤ a.limit d = rw (only hit) (a.of_child ok) in
          let gain : branch_total a.worker d.id (mid ++ e ∷ [])
              ≡ branch_total a.worker d.id ds + a.worker e =
            rw (total-new a d.id mid e, mid-total d.id, own) refl in
          rw hit (λ root. (
            rw (gain, a.reserves e d) (omega (arith, (acc root).0)),
            rw (a.reserves e d, (a.reserves_only e d).1) room,
          ))
      | inr miss ↦ rw miss (λ root.
          rw (total-other a d.id mid e (str_eq-flip d.id e.root_delegation_id miss), mid-total d.id)
            (acc root))
    ]

    nested-Balanced : Balanced ds → Balanced (mid ++ e ∷ [])
    nested-Balanced h = record {
      unique = λ id.
          one_more has_id mid e e.id id (λ hit. (str_eq_iff e.id id).0 hit) (mid-count e.id ∙ fresh)
            (rw (mid-count id) (h.unique id));
      rooted_total = λ id gone.
          let both = sym (count-new a id mid e) ∙ gone in
          let gone_before : count_where (has_id id) ds ≡ 0 = omega (arith, both, mid-count id) in
          total-other a id mid e (foreign id gone_before)
          ∙ mid-total id
          ∙ h.rooted_total id gone_before;
      accounts =
          All-append (Account (mid ++ e ∷ [])) mid (e ∷ [])
            (All-updated (λ d. Account ds d × (has_id e.root_delegation_id d ≡ true → d ≡ r))
              (Account (mid ++ e ∷ [])) (has_id e.root_delegation_id) (reserve_for e) ds
              (λ d k. nested-Account d k.0 k.1)
              (All-pair (Account ds) (λ d. has_id e.root_delegation_id d ≡ true → d ≡ r) _ ds
                (λ d x y. (x, y)) h.accounts
                (All-unique (λ d. true) (has_id e.root_delegation_id) ds r
                  (h.unique e.root_delegation_id)
                  (first_where_stronger (λ d. true) (has_id e.root_delegation_id) ds r there
                    refl))))
            (λ root. let off = foreign e.id fresh in absurd cc, tt);
    }

  pub Change-Balanced :
      {l m : Ledger} → Change l m → Balanced l.delegations → Balanced m.delegations
  Change-Balanced nothing h = h
  Change-Balanced (followed x y) h = Change-Balanced y (Change-Balanced x h)
  Change-Balanced (noted l es os) h = h
  Change-Balanced (updated l p f step) h = updated-Balanced p f l.delegations step h
  Change-Balanced (spent l p f step) h = h
  Change-Balanced (leased l k x y) h = h
  Change-Balanced (rooted l d fresh idle ok) h = rooted-Balanced l.delegations d fresh ok h
  Change-Balanced (nested l r d fresh idle there ok) h =
      nested-Balanced l.delegations r d fresh there ok h
