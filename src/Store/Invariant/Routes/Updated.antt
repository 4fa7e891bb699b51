-- ===== src/Store/Invariant/Routes/Updated.antt =====
-- An updated route is compatible with the other rows.
use portloom.Domain.Agent.{Time}
use portloom.Domain.Route.{Route}
use portloom.Domain.Route.Laws.{IsValid}
use portloom.Prelude.{
  All, Bool, Bool-cases, List, Pairwise, Text, [], any, arith, false, inl, inr, int_eq, int_eq_iff,
  not, pos, sym, text_eq_iff, true, ℕ, ◌&&◌, ◌==◌, ◌||◌, ◌∙◌, ◌∷◌, ◌≡◌, ◌≢◌,
}
use portloom.Store.Db.{Options, same_endpoint, update_where}
use portloom.Store.Invariant.{Compatible, RouteOk, SameWeb}
use portloom.Store.Invariant.Routes.{not-SameWeb, share_port}
use portloom.Store.Routes.{takes_port, written}
use portloom.Store.Rows.{Pairwise-update_where, changed}

SameWeb-sym : (a b : Route) → SameWeb a b → SameWeb b a
SameWeb-sym a b s = record {
  web = rw (← s.protocol) s.web;
  protocol = sym s.protocol;
  domain = sym s.domain;
  public_port = sym s.public_port;
  path_prefix = sym s.path_prefix;
}

Compatible-sym : (a b : Route) → Compatible a b → Compatible b a
Compatible-sym a b c = record {
  id = λ e. c.id (sym e);
  remote_port = λ e. c.remote_port (sym e);
  web = λ s. c.web (SameWeb-sym b a s);
  port = λ nonzero same.
      let (web, scheme) = c.port (λ e. nonzero (same ∙ e)) (sym same) in
      (rw (← scheme) web, sym scheme);
}

-- The row with the identifier of the update, against another one.
module _ (unicode_lower : ℕ → ℕ) (now : Time) (options : Options) (id : Text) (update : Route)
    (v : IsValid update) where
  abbrev is_row : Route → Bool
  is_row q = q.id == id

  abbrev new : Route → Route
  new = written unicode_lower now update

  -- What the checks say of a row.
  record Clear (q : Route) : Type 0 where
    ok : RouteOk options q
    endpoint : (not (q.id == id) && same_endpoint q update) ≡ false
    port : (int_eq update.public_port (pos 0) || not (takes_port update id q)) ≡ true

  updated-Compatible :
      (x y : Route) → (y.id == id) ≡ false → Clear y → Compatible x y → Compatible (new x) y
  updated-Compatible x y differs k c = record {
    id = c.id;
    remote_port = c.remote_port;
    web = λ s. not-SameWeb update y v k.ok.valid clear (record {
      web = s.web;
      protocol = s.protocol;
      domain = s.domain;
      public_port = s.public_port;
      path_prefix = s.path_prefix;
    });
    port = λ nonzero same.
        share_port update y v k.ok.valid id clear differs (free nonzero) nonzero same;
  }
    where
      clear : same_endpoint y update ≡ false
      clear = ground (arith, k.endpoint)

      free : update.public_port ≢ pos 0 → takes_port update id y ≡ false
      free ne = elim (Bool-cases (int_eq update.public_port (pos 0))) [
        | inl e ↦ absurd (ne ((int_eq_iff update.public_port (pos 0)).0 e))
        | inr e ↦ ground (arith, k.port)
      ]

  step_Compatible :
      (x y : Route)
      → Clear x
      → Clear y
      → Compatible x y
      → Compatible (changed is_row new x) (changed is_row new y)
  step_Compatible x y kx ky c = elim (Bool-cases (x.id == id)) [
    | inl px ↦ elim (Bool-cases (y.id == id)) [
      | inl py ↦ absurd (c.id ((text_eq_iff x.id id).0 px ∙ sym ((text_eq_iff y.id id).0 py)))
      | inr py ↦ rw (px, py) (updated-Compatible x y py ky c)
    ]
    | inr px ↦ elim (Bool-cases (y.id == id)) [
      | inl py ↦
          rw (px, py)
            (Compatible-sym (new y) x (updated-Compatible y x px kx (Compatible-sym x y c)))
      | inr py ↦ rw (px, py) c
    ]
  ]

  All-Clear :
      (l : List Route)
      → All (RouteOk options) l
      → any (λ q. not (q.id == id) && same_endpoint q update) l ≡ false
      → (int_eq update.public_port (pos 0) || not (any (takes_port update id) l)) ≡ true
      → All Clear l
  All-Clear [] h clear free = tt
  All-Clear (q ∷ l) (k, h) clear free = (
    record { ok = k; endpoint = ground arith; port = ground arith },
    All-Clear l h (ground arith) (ground arith),
  )

  pub write-Pairwise :
      (l : List Route)
      → All (RouteOk options) l
      → any (λ q. not (q.id == id) && same_endpoint q update) l ≡ false
      → (int_eq update.public_port (pos 0) || not (any (takes_port update id) l)) ≡ true
      → Pairwise Compatible l
      → Pairwise Compatible (update_where is_row new l)
  write-Pairwise l h clear free p =
      Pairwise-update_where Clear Compatible Compatible is_row new step_Compatible l
        (All-Clear l h clear free) p
