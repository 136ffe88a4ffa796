-- ===== src/Aggregators/Certificates.antt =====
-- The certificates of primary/src/aggregators.rs: held until a quorum, then handed out as they come.
use bullshark_ubuntu.Base.{
  ◌+◌, ◌*◌, ◌≤◌, ◌<◌, ◌≡◌, refl, sym, ap, ◌∙◌, inl, inr, leb, if◌then◌else◌, List, [], ◌∷◌, ◌++◌,
  map, append_assoc, append-nil, contains, Distinct, subst, Option, none, some, ok, err, arith,
  u32_mod, add_u32, Bool-cases,
}
use bullshark_ubuntu.Config.{Committee, PublicKey, stake, quorum_threshold}
use bullshark_ubuntu.Config.Quorum.{total, weight, weight-le-total}
use bullshark_ubuntu.Error.{DagResult}
use bullshark_ubuntu.Messages.Certificate.{Certificate, origin}
use bullshark_ubuntu.Aggregators.{CertificatesAggregator, new_certificates, append_certificate}

-- What one call hands to the proposer.
abbrev pub released : DagResult (Option (List Certificate)) → List Certificate
released (ok (some cs)) = cs
released (ok none) = []
released (err e) = []

unfoldable pub append_certificates :
    Committee
    → CertificatesAggregator
    → List Certificate
    → CertificatesAggregator × List Certificate
append_certificates c a [] = (a, [])
append_certificates c a (x ∷ xs) =
    let (a', r) = append_certificate a x c in
    let (b, out) = append_certificates c a' xs in (b, released r ++ out)

-- The first certificate of each origin, in order of arrival.
abbrev pub firsts : List PublicKey → List Certificate → List Certificate
firsts seen [] = []
firsts seen (x ∷ xs) =
    if contains (origin x) seen then firsts seen xs else x ∷ firsts (origin x ∷ seen) xs

-- What is held is below the quorum; after the quorum nothing is held.
record Holding (c : Committee) (out : List Certificate) (a : CertificatesAggregator) : Type 0 where
  distinct : Distinct a.used
  weighed : a.weight ≡ weight c a.used
  below : weight c a.used < quorum_threshold c → out ≡ []
  above : quorum_threshold c ≤ weight c a.used → a.certificates ≡ []

module _ (c : Committee) (small : 2 * total c < u32_mod) where
  append_certificate-Holding :
      (out : List Certificate) (a : CertificatesAggregator) (x : Certificate)
      → Holding c out a
      → Holding c (out ++ released (append_certificate a x c).1) (append_certificate a x c).0
  unfolding append_certificate weight
  append_certificate-Holding out a x t = elim (Bool-cases (contains (origin x) a.used)) [
    | inl e ↦ rw (e, append-nil out) t
    | inr e ↦
        let b = weight-le-total c (origin x ∷ a.used) (e, t.distinct) in
        elim (Bool-cases (leb (quorum_threshold c) (add_u32 a.weight (stake c (origin x))))) [
          | inl q ↦
              rw (e, q)
                (record {
                  distinct = (e, t.distinct);
                  weighed = ground (arith, t.weighed);
                  below = λ z. absurd (ground (arith, t.weighed));
                  above = λ z. refl;
                })
          | inr q ↦
              rw (e, q, append-nil out)
                (record {
                  distinct = (e, t.distinct);
                  weighed = ground (arith, t.weighed);
                  below = λ z. t.below (ground (arith, t.weighed));
                  above = λ z. absurd (ground (arith, t.weighed));
                })
        ]
  ]

  append_certificate-firsts :
      (a : CertificatesAggregator) (x : Certificate) (xs : List Certificate)
      → released (append_certificate a x c).1
          ++ ((append_certificate a x c).0.certificates
              ++ firsts (append_certificate a x c).0.used xs)
        ≡ a.certificates ++ firsts a.used (x ∷ xs)
  unfolding append_certificate
  append_certificate-firsts a x xs = elim (Bool-cases (contains (origin x) a.used)) [
    | inl e ↦ rw (e)
    | inr e ↦ elim (Bool-cases (leb (quorum_threshold c) (add_u32 a.weight (stake c (origin x))))) [
      | inl q ↦ rw (e, q) (append_assoc a.certificates (x ∷ []) (firsts (origin x ∷ a.used) xs))
      | inr q ↦ rw (e, q) (append_assoc a.certificates (x ∷ []) (firsts (origin x ∷ a.used) xs))
    ]
  ]

  append_certificate-weight :
      (a : CertificatesAggregator) (x : Certificate) (xs : List Certificate)
      → weight c (append_certificate a x c).0.used
          + weight c (map origin (firsts (append_certificate a x c).0.used xs))
        ≡ weight c a.used + weight c (map origin (firsts a.used (x ∷ xs)))
  unfolding append_certificate weight
  append_certificate-weight a x xs = elim (Bool-cases (contains (origin x) a.used)) [
    | inl e ↦ rw e
    | inr e ↦ elim (Bool-cases (leb (quorum_threshold c) (add_u32 a.weight (stake c (origin x))))) [
      | inl q ↦ rw (e, q) (omega arith)
      | inr q ↦ rw (e, q) (omega arith)
    ]
  ]

  append_certificates-Holding :
      (out : List Certificate) (a : CertificatesAggregator) (xs : List Certificate)
      → Holding c out a
      → Holding c (out ++ (append_certificates c a xs).1) (append_certificates c a xs).0
  unfolding append_certificates
  append_certificates-Holding out a [] t = rw (append-nil out) t
  append_certificates-Holding out a (x ∷ xs) t =
      let r = append_certificate a x c in
      subst (λ o. Holding c o (append_certificates c r.0 xs).0)
        (append_assoc out (released r.1) (append_certificates c r.0 xs).1)
        (append_certificates-Holding (out ++ released r.1) r.0 xs
          (append_certificate-Holding out a x t))

  append_certificates-firsts :
      (a : CertificatesAggregator) (xs : List Certificate)
      → (append_certificates c a xs).1 ++ (append_certificates c a xs).0.certificates
        ≡ a.certificates ++ firsts a.used xs
  unfolding append_certificates
  append_certificates-firsts a [] = sym (append-nil a.certificates)
  append_certificates-firsts a (x ∷ xs) =
      let r = append_certificate a x c in
      append_assoc (released r.1) (append_certificates c r.0 xs).1
        (append_certificates c r.0 xs).0.certificates
      ∙ ap (λ t. released r.1 ++ t) (append_certificates-firsts r.0 xs)
      ∙ append_certificate-firsts a x xs

  append_certificates-weight :
      (a : CertificatesAggregator) (xs : List Certificate)
      → weight c (append_certificates c a xs).0.used
        ≡ weight c a.used + weight c (map origin (firsts a.used xs))
  unfolding append_certificates
  append_certificates-weight a [] = unfold weight in omega arith
  append_certificates-weight a (x ∷ xs) =
      append_certificates-weight (append_certificate a x c).0 xs ∙ append_certificate-weight a x xs

  new_certificates-Holding : Holding c [] new_certificates
  unfolding weight
  new_certificates-Holding = record {
    distinct = tt;
    weighed = refl;
    below = λ h. refl;
    above = λ h. refl;
  }

  -- What a new aggregator hands out, call after call, is the first certificate of each origin in order of arrival if those hold a quorum, and nothing before: twice the total stake is below 2^32.
  pub parents_of_quorum :
      (xs : List Certificate)
      → (append_certificates c new_certificates xs).1 ≡ (
          if leb (quorum_threshold c) (weight c (map origin (firsts [] xs)))
          then firsts [] xs
          else [])
  parents_of_quorum xs =
      elim (Bool-cases (leb (quorum_threshold c) (weight c (map origin (firsts [] xs))))) [
        | inl q ↦ rw q (
            sym (append-nil out)
            ∙ ap (λ t. out ++ t) (sym (held.above (ground (arith, heavy))))
            ∙ append_certificates-firsts new_certificates xs)
        | inr q ↦ rw q (held.below (ground (arith, heavy)))
      ]
    where
      out : List Certificate
      out = (append_certificates c new_certificates xs).1

      held : Holding c out (append_certificates c new_certificates xs).0
      held = append_certificates-Holding [] new_certificates xs new_certificates-Holding

      heavy :
          weight c (append_certificates c new_certificates xs).0.used
          ≡ weight c (map origin (firsts [] xs))
      heavy = append_certificates-weight new_certificates xs ∙ (unfold weight in omega arith)
