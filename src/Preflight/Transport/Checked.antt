-- ===== src/Preflight/Transport/Checked.antt =====
-- pkg/preflight/report_transport.go: BuildPreflightReport before validateReport.
use kcover.Preflight.Transport.{
  Encoders, build_preflight_report, no_namespace, preflight_report_name, report_identity,
  validate_report, wrap,
}
use kcover.Preflight.Parser.{parse_report, validate_workload_size, named_report}
use kcover.Shared.{
  >>=-eq-ok, List, Result, String, arith, eq_iff, err, fail_if-eq-ok, false, int_beq, is_neg, ltb,
  nat_beq_iff, negsuc, not, ok, pos, to_nat, true, ℕ, ℤ, ◌+++◌, ◌-◌, ◌==◌, ◌^◌, ◌||◌, ◌≡◌, text_eq,
  nat_eq, Bool-cases, ap, beq_empty, inl, inr, none, refl, subst, text_is_empty, ◌&&◌, ◌∙◌,
}
use kcover.Cluster.{Owner}
use kcover.Api.{PreflightReport}
use kcover.Preflight.Types.{Report}
use kcover.Preflight.Json.{Runtime}

pub wrap-eq-ok : {D E A : Type 0} (f : D → E) (r : Result D A) {a : A} → wrap f r ≡ ok a → r ≡ ok a
wrap-eq-ok f (ok a) h = cc
wrap-eq-ok f (err e) h = absurd (cc)

not_beq_false : (a b : String) → not (a == b) ≡ false → a ≡ b
not_beq_false a b h = ground (arith, eq_iff a b)

int_beq_refl : (a : ℤ) → int_beq a a ≡ true
int_beq_refl (pos n) = ground (arith, nat_beq_iff n n)
int_beq_refl (negsuc n) = ground (arith, nat_beq_iff n n)

text_beq_refl : (a : String) → (a == a) ≡ true
text_beq_refl a = ground (arith, eq_iff a a)

dash_inside : (s t : String) → text_is_empty (s +++ "-" +++ t) ≡ false
dash_inside String.[] t = refl
dash_inside (String.◌∷◌ c s) t = refl

-- What BuildPreflightReport has checked of a report that it returns.
pub record IsBuilt (encoders : Encoders) (rt : Runtime) (ns node workload uid text : String)
    (observed : ℕ) (own : List Owner) (r : PreflightReport) : Type 0 where
  pub namespaced : (ns == "") ≡ false
  pub named : (workload == "") ≡ false
  pub identified : (uid == "") ≡ false
  pub placed : (node == "") ≡ false
  pub payload : Report
  pub parsed : parse_report rt text ≡ ok payload
  pub same_node : payload.node_name ≡ node
  pub rank_fits : (is_neg payload.rank || ltb (2 ^ 31 - 1) (to_nat payload.rank)) ≡ false
  pub even : validate_workload_size payload.workload_size ≡ ok tt
  pub timed : (observed == 0) ≡ false
  pub made : r ≡ record {
    namespace = ns;
    name =
        preflight_report_name encoders workload
          (encoders.sha256_hex (report_identity encoders ns uid node payload.rank text));
    owners = own;
    workload_name = workload;
    workload_uid = uid;
    node_name = node;
    rank = payload.rank;
    report = text;
    observed_at = observed;
  }

module _ (encoders : Encoders) (rt : Runtime) where
  pub build_preflight_report-IsBuilt :
      (ns node workload uid text : String) (observed : ℕ) (own : List Owner) (r : PreflightReport)
      → build_preflight_report encoders rt ns node workload uid text observed own ≡ ok r
      → IsBuilt encoders rt ns node workload uid text observed own r
  unfolding build_preflight_report
  build_preflight_report-IsBuilt ns node workload uid text observed own r h =
      let (a, h1) = fail_if-eq-ok (ns == "") no_namespace h in
      let (b, h2) = fail_if-eq-ok (workload == "") _ h1 in
      let (c, h3) = fail_if-eq-ok (uid == "") _ h2 in
      let (d, h4) = fail_if-eq-ok (node == "") _ h3 in
      let (p, e, h5) = >>=-eq-ok (wrap _ (parse_report rt text)) _ h4 in
      let (f, h6) = fail_if-eq-ok (not (p.node_name == node)) _ h5 in
      let (g, h7) = fail_if-eq-ok (is_neg p.rank || ltb (2 ^ 31 - 1) (to_nat p.rank)) _ h6 in
      let (u, i, h8) = >>=-eq-ok (wrap _ (validate_workload_size p.workload_size)) _ h7 in
      let (j, h9) = fail_if-eq-ok (observed == 0) _ h8 in
      record {
        namespaced = a;
        named = b;
        identified = c;
        placed = d;
        payload = p;
        parsed = wrap-eq-ok _ (parse_report rt text) e;
        same_node = not_beq_false p.node_name node f;
        rank_fits = g;
        even = wrap-eq-ok _ (validate_workload_size p.workload_size) i;
        timed = j;
        made = cc;
      }

  text_not_empty :
      (text : String) (payload : Report)
      → rt.decode_report "" ≡ none
      → parse_report rt text ≡ ok payload
      → (text == "") ≡ false
  unfolding parse_report
  text_not_empty text payload void h = elim (Bool-cases (text == "")) [
    | inl gone ↦
        let same : text ≡ "" = (eq_iff text "").0 gone in
        let bad : named_report rt none ≡ ok payload =
          subst (λ o. named_report rt o ≡ ok payload) (ap rt.decode_report same ∙ void) h in
        absurd (cc)
    | inr there ↦ there
  ]

  name_not_empty :
      (workload digest : String) → (preflight_report_name encoders workload digest == "") ≡ false
  unfolding preflight_report_name
  name_not_empty workload digest = beq_empty _ (dash_inside _ _)

  -- If an empty text is no report, every resource that BuildPreflightReport makes passes the checks of
  -- the watcher on the other side, unless its payload names another workload.
  pub build_preflight_report-validate :
      (ns node workload uid text : String) (observed : ℕ) (own : List Owner) (r : PreflightReport)
      → rt.decode_report "" ≡ none
      → build_preflight_report encoders rt ns node workload uid text observed own ≡ ok r
      → ((payload : Report)
          → parse_report rt text ≡ ok payload
          → (payload.workload == "" || payload.workload == workload) ≡ true)
      → validate_report rt r ≡ ok tt
  unfolding validate_report
  build_preflight_report-validate ns node workload uid text observed own r void h same_workload =
      let b = build_preflight_report-IsBuilt ns node workload uid text observed own r h in
      let p = b.payload in
      let other : (not (p.workload == "") && not (p.workload == workload)) ≡ false =
        ground (arith, same_workload p b.parsed) in
      let same : not (p.node_name == node) ≡ false =
        ground (arith, b.same_node, eq_iff p.node_name node) in
      rw b.made (
        rw
          (
            name_not_empty workload
                (encoders.sha256_hex (report_identity encoders ns uid node p.rank text)),
            b.namespaced,
            b.named,
            b.identified,
            b.placed,
            text_not_empty text p void b.parsed,
            b.timed,
            b.parsed,
            b.even,
            same,
            int_beq_refl p.rank,
            other,
          )
          refl)
