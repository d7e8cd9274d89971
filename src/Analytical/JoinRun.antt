-- ===== src/Analytical/JoinRun.antt =====
-- sqlagent/analytical.py: what an accepted join stage has come to.
use po_c_sqlagent.Base.{
  String, true, not, ◌&&◌, ◌≡◌, List, ok, >>=-eq-ok, guard-eq-ok, ok-injective,
}
use po_c_sqlagent.Text.{◌=ₛ◌, member, lower}
use po_c_sqlagent.Python.{Fields, truthy, get}
use po_c_sqlagent.Composer.{has_table, text_or}
use po_c_sqlagent.Analytical.Terms.{ident}
use po_c_sqlagent.Analytical.Tables.{Stages, item, union, intersect, is_empty}
use po_c_sqlagent.Analytical.Stages.{
  Compiled, compile_join, join_sql, join_grain, cardinalities, join_kinds,
}

abbrev pub left_of : Fields → String
left_of fs = text_or "left" "" fs

abbrev pub right_of : Fields → String
right_of fs = text_or "right" "" fs

abbrev pub how_of : Fields → String
how_of fs = lower (text_or "how" "inner" fs)

abbrev pub cardinality_of : (String → String → String) → Fields → String
cardinality_of known fs = text_or "cardinality" (known (left_of fs) (right_of fs)) fs

pub record JoinRun (known : String → String → String) (fs : Fields) (outputs grains : Stages)
    (c : Compiled) : Type 0 where
  pub left_columns : List String
  pub right_columns : List String
  pub left_from : String
  pub right_from : String
  pub left_on : String
  pub right_on : String
  pub grain : List String
  pub left_found : item (left_of fs) outputs ≡ ok left_columns
  pub right_found : item (right_of fs) outputs ≡ ok right_columns
  pub keyed :
      (member (text_or "left_key" "" fs) left_columns
        && member (text_or "right_key" "" fs) right_columns)
      ≡ true
  pub declared : member (cardinality_of known fs) cardinalities ≡ true
  pub fanout :
      not (cardinality_of known fs =ₛ "one_to_many" && not (truthy (get "allow_fanout" fs))) ≡ true
  pub disjoint : is_empty (intersect left_columns right_columns) ≡ true
  pub kind : member (how_of fs) join_kinds ≡ true
  pub left_ident : ident (left_of fs) ≡ ok left_from
  pub right_ident : ident (right_of fs) ≡ ok right_from
  pub left_key_ident : ident (text_or "left_key" "" fs) ≡ ok left_on
  pub right_key_ident : ident (text_or "right_key" "" fs) ≡ ok right_on
  pub grain_is : join_grain (cardinality_of known fs) (left_of fs) grains ≡ ok grain
  pub result :
      ◌≡◌ {A = Compiled}
        (
          join_sql left_from (how_of fs) right_from left_on right_on,
          union left_columns right_columns,
          grain,
        )
        c

pub compile_join-JoinRun :
    (known : String → String → String) (fs : Fields) (outputs grains : Stages) (c : Compiled)
    → compile_join known fs outputs grains ≡ ok c
    → JoinRun known fs outputs grains c
unfolding compile_join
compile_join-JoinRun known fs outputs grains c h =
    let left = left_of fs in
    let right = right_of fs in
    let lkey = text_or "left_key" "" fs in
    let rkey = text_or "right_key" "" fs in
    let cardinality = cardinality_of known fs in
    let fans = cardinality =ₛ "one_to_many" && not (truthy (get "allow_fanout" fs)) in
    let (tables, h₁) = guard-eq-ok (has_table outputs left && has_table outputs right) _ _ h in
    let (lcols, e₂, h₂) = >>=-eq-ok (item left outputs) _ h₁ in
    let (rcols, e₃, h₃) = >>=-eq-ok (item right outputs) _ h₂ in
    let (keyed, h₄) = guard-eq-ok (member lkey lcols && member rkey rcols) _ _ h₃ in
    let (declared, h₅) = guard-eq-ok (member cardinality cardinalities) _ _ h₄ in
    let (fanout, h₆) = guard-eq-ok (not fans) _ _ h₅ in
    let (disjoint, h₇) = guard-eq-ok (is_empty (intersect lcols rcols)) _ _ h₆ in
    let (kind, h₈) = guard-eq-ok (member (how_of fs) join_kinds) _ _ h₇ in
    let (lfrom, e₉, h₉) = >>=-eq-ok (ident left) _ h₈ in
    let (rfrom, e₁₀, k₁) = >>=-eq-ok (ident right) _ h₉ in
    let (lon, e₁₁, k₂) = >>=-eq-ok (ident lkey) _ k₁ in
    let (ron, e₁₂, k₃) = >>=-eq-ok (ident rkey) _ k₂ in
    let (grain, e₁₃, k₄) = >>=-eq-ok (join_grain cardinality left grains) _ k₃ in
    record {
      left_columns = lcols;
      right_columns = rcols;
      left_from = lfrom;
      right_from = rfrom;
      left_on = lon;
      right_on = ron;
      grain = grain;
      left_found = e₂;
      right_found = e₃;
      keyed = keyed;
      declared = declared;
      fanout = fanout;
      disjoint = disjoint;
      kind = kind;
      left_ident = e₉;
      right_ident = e₁₀;
      left_key_ident = e₁₁;
      right_key_ident = e₁₂;
      grain_is = e₁₃;
      result = ok-injective k₄;
    }
