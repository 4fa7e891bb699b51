-- ===== src/Authorizedkeys/Bindings.antt =====
-- The addresses on which the agents of a written file may listen.
use portloom.Authorizedkeys.{Entry, Line, address_of, is_agent_id, normalize, prepare}
use portloom.Prelude.{
  All, All-imp, Bool, List, Option-cases, Pairwise, Text, [], any, arith, false, inl, inr, some,
  subst, sym, text_eq_iff, true, ℕ, ◌==◌, ◌∷◌, ◌≡◌, ◌≢◌,
}

pub record IsLine (sha256 : Text → List ℕ) (isolated : Bool) (line : Line) : Type 0 where
  pub owner : is_agent_id line.owner ≡ true
  pub address : address_of sha256 isolated line.owner ≡ some line.address

module _ (sha256 : Text → List ℕ) where
  -- One step of the loop that succeeds.
  record Prepared (owners : List Text) (e : Entry) (l : List Entry) (lines : List Line)
      : Type 0 where
    key : Text
    address : Text
    bound : address_of sha256 true e.agent_id ≡ some address
    safe : is_agent_id e.agent_id ≡ true
    fresh : any (λ a. a == address) owners ≡ false
    rest : List Line
    prepared : prepare sha256 true (address ∷ owners) l ≡ some rest
    result : lines ≡ record { owner = e.agent_id; key = key; address = address } ∷ rest

  prepare-inv :
      (owners : List Text) (e : Entry) (l : List Entry) (lines : List Line)
      → prepare sha256 true owners (e ∷ l) ≡ some lines
      → Prepared owners e l lines
  unfolding prepare
  prepare-inv owners e l lines done = elim (Option-cases (normalize e.public_key)) [
    | inl bad ↦ absurd (ground arith)
    | inr (key, normal) ↦ elim (Option-cases (address_of sha256 true e.agent_id)) [
      | inl bad ↦ absurd (ground arith)
      | inr (address, bound) ↦ elim (Option-cases (prepare sha256 true (address ∷ owners) l)) [
        | inl bad ↦ absurd (ground arith)
        | inr (rest, prepared) ↦ record {
          key = key;
          address = address;
          bound = bound;
          safe = ground arith;
          fresh = ground arith;
          rest = rest;
          prepared = prepared;
          result = ground arith;
        }
      ]
    ]
  ]

  abbrev IsFresh : List Text → Line → Type 0
  IsFresh owners line = any (λ a. a == line.address) owners ≡ false

  -- With isolation, the addresses of the lines that are prepared for any entries are all different,
  -- so no agent may listen for another one; each line has a safe identifier, and the address of its
  -- agent, which is none of those given before.
  pub prepare-Pairwise :
      (owners : List Text) (entries : List Entry) (lines : List Line)
      → prepare sha256 true owners entries ≡ some lines
      → Pairwise (λ a b. a.address ≢ b.address) lines
        × All (IsLine sha256 true) lines
        × All (λ line. any (λ a. a == line.address) owners ≡ false) lines
  prepare-Pairwise owners [] lines done =
      let e : [] ≡ lines = unfold prepare in cc in rw (← e) (tt, tt, tt)
  prepare-Pairwise owners (e ∷ l) lines done =
      let p = prepare-inv owners e l lines done in
      let (distinct, good, fresh) = prepare-Pairwise (p.address ∷ owners) l p.rest p.prepared in
      let line : Line = record { owner = e.agent_id; key = p.key; address = p.address } in
      let apart : All (λ q. p.address ≢ q.address) p.rest =
        All-imp p.rest (λ q h same. ground (arith, (text_eq_iff p.address q.address).1 same))
          fresh in
      let others : All (IsFresh owners) p.rest = All-imp p.rest (λ q h. ground arith) fresh in
      subst
        (λ m.
          Pairwise (λ a b. a.address ≢ b.address) m
          × All (IsLine sha256 true) m
          × All (IsFresh owners) m)
        (sym p.result)
        ((apart, distinct), (record { owner = p.safe; address = p.bound }, good), (p.fresh, others))
