-- ===== src/Api/Errors.antt =====
-- What a request can give, and when it dispatches the event of an expired session: `requestJson`
-- and `notifySessionExpired` of frontend/src/api/base.ts.
use mathlib.Core.Path.{subst}
use task_calendar.Base.{
  Bool, true, false, ◌≡◌, refl, sym, ◌∙◌, ◌↔◌, inl, inr, Bool-cases, Option, none, some, some_inj,
  ◌==◌, arith, not, ◌&&◌, if◌then◌else◌,
}
use task_calendar.Base.Text.{Text}
use task_calendar.Api.{
  Response, Outcome, ExpiredKind, Exchange, RequestJsonOptions, is_cloudflare_access_redirect,
  is_ok, is_json, plain, read_body, Failure, parse_json_response, answer_of, request_json,
}

not_inj : (b : Bool) → not b ≡ false → b ≡ true
not_inj b h = ground arith

-- The message by the tests alone: the request listens, the response is a sign-in page, and the
-- request has an error for its status.
abbrev announced : Bool → Bool → Bool → Text → Option (ExpiredKind × Text)
announced false cf st path = none
announced true true st path = some (ExpiredKind.cloudflare_access, path)
announced true false true path = some (ExpiredKind.application, path)
announced true false false path = none

abbrev Reason : ExpiredKind → Bool → Bool → Bool → Type 0
Reason ExpiredKind.cloudflare_access cf st ca = cf ≡ true
Reason ExpiredKind.application cf st ca = (cf ≡ false) × (st ≡ true) × (ca ≡ true)

announced_iff :
    (n cf st ca : Bool) (path p : Text) (kind : ExpiredKind)
    → (announced n cf (st && ca) path ≡ some (kind, p))
      ↔ ((n ≡ true) × (p ≡ path) × Reason kind cf st ca)
announced_iff n cf st ca path p ExpiredKind.cloudflare_access = ground arith
announced_iff n cf st ca path p ExpiredKind.application = ground arith

module _ {ℓ} {A : Type ℓ} where
  -- A response with the JSON text of `a`, that is no error and comes from the server itself.
  abbrev pub Delivers : RequestJsonOptions → Response A → A → Type ℓ
  Delivers options r a =
      ((options.notifies_unauthorized && is_cloudflare_access_redirect r) ≡ false)
      × (is_ok r ≡ true)
      × ((r.status == 204) ≡ false)
      × (is_json r ≡ true)
      × (r.body ≡ some a)

  -- The reason of a message that the session has expired.
  abbrev pub Expired : ExpiredKind → RequestJsonOptions → Response A → Type 0
  Expired kind options r =
      Reason kind (is_cloudflare_access_redirect r) (r.status == 401) options.creates_auth_error

  thrown : {f : Failure} {a : A} → Outcome.throws f ≡ Outcome.value a → ⊥
  thrown e = ground (arith, e)

  parsed :
      (r : Response A) (a : A)
      → parse_json_response r ≡ Outcome.value a
      → (is_json r ≡ true) × (r.body ≡ some a)
  unfolding parse_json_response
  parsed r a h = elim (Bool-cases (is_json r)) [
    | inl json ↦ (json, read r.body (rw json at h))
    | inr other ↦ absurd (thrown (rw other at h))
  ]
    where
      read : (body : Option A) → read_body body ≡ Outcome.value a → body ≡ some a
      read none e = absurd (thrown e)
      read (some b) e = ground (arith, e)

  passed :
      (b : Bool) (f : Failure) (e : Option (ExpiredKind × Text)) (rest : Exchange A) (a : A)
      → (if b then record { outcome = Outcome.throws f; expired = e } else rest).outcome
        ≡ Outcome.value a
      → (b ≡ false) × (rest.outcome ≡ Outcome.value a)
  passed true f e rest a h = absurd (thrown h)
  passed false f e rest a h = (refl, h)

  filled :
      (b : Bool) (o : Outcome A) (a : A)
      → (if b then plain Outcome.empty else plain o).outcome ≡ Outcome.value a
      → (b ≡ false) × (o ≡ Outcome.value a)
  filled true o a h = absurd (ground (arith, h))
  filled false o a h = (refl, h)

  no_401 : (r : Response A) → is_ok r ≡ true → (r.status == 401) ≡ false
  no_401 r h = ground arith

  answer_value :
      (path : Text) (options : RequestJsonOptions) (r : Response A) (a : A)
      → (answer_of path options r).outcome ≡ Outcome.value a
      → Delivers options r a
  answer_value path options r a h =
      let own = passed _ _ _ _ a h in
      let authorized = passed _ _ _ _ a own.1 in
      let fine = passed _ _ none _ a authorized.1 in
      let given = filled _ _ a fine.1 in
      let read = parsed r a given.1 in (own.0, not_inj (is_ok r) fine.0, given.0, read.0, read.1)

  value_answer :
      (path : Text) (options : RequestJsonOptions) (r : Response A) (a : A)
      → Delivers options r a
      → (answer_of path options r).outcome ≡ Outcome.value a
  unfolding parse_json_response
  value_answer path options r a (own, fine, given, json, read) =
      rw (own, no_401 r fine, fine, given, json, read) refl

  -- A request gives a value exactly when the browser has a response for it, which is no sign-in page
  -- of Cloudflare Access where the request listens for one, with a status from 200 to 299 but 204, a
  -- content type of JSON and a body that can be read as the value.
  pub request_json-value :
      (path : Text) (options : RequestJsonOptions) (response : Option (Response A)) (a : A)
      → ((request_json path options response).outcome ≡ Outcome.value a)
        ↔ ((r : Response A) × (response ≡ some r) × Delivers options r a)
  unfolding request_json
  request_json-value path options none a = (λ h. absurd (ground arith), λ h. absurd (ground arith))
  request_json-value path options (some r) a = (
    λ h. (r, refl, answer_value path options r a h),
    λ (r2, e, d).
        value_answer path options r a (subst (λ q. Delivers options q a) (sym (some_inj e)) d),
  )

  quiet :
      (b c : Bool) (x y z : Outcome A)
      → (if b then plain x else if c then plain y else plain z).expired ≡ none
  quiet true c x y z = refl
  quiet false true x y z = refl
  quiet false false x y z = refl

  -- The message of an answer, by the three tests that decide it.
  notice :
      (n cf st : Bool) (path : Text) (x y : Outcome A) (rest : Exchange A)
      → rest.expired ≡ none
      → (if n && cf
          then record { outcome = x; expired = some (ExpiredKind.cloudflare_access, path) }
          else if st
          then record {
            outcome = y;
            expired = if n then some (ExpiredKind.application, path) else none;
          }
          else rest).expired
        ≡ announced n cf st path
  notice true true st path x y rest h = refl
  notice true false true path x y rest h = refl
  notice true false false path x y rest h = h
  notice false cf true path x y rest h = refl
  notice false cf false path x y rest h = h

  -- A request dispatches the event of an expired session, with its own path, exactly when it asks for
  -- that and the browser has a response for it: the event of Cloudflare Access when the response is
  -- its sign-in page, and the event of the program's own session when it is not, the status is 401
  -- and the request has an error of its own for that.
  pub request_json-expired :
      (path p : Text) (options : RequestJsonOptions) (response : Option (Response A))
      (kind : ExpiredKind)
      → ((request_json path options response).expired ≡ some (kind, p)) ↔ (
          (r : Response A) × (response ≡ some r)
          × (options.notifies_unauthorized ≡ true)
          × (p ≡ path)
          × Expired kind options r)
  unfolding request_json
  request_json-expired path p options none kind =
      (λ h. absurd (ground (arith, h)), λ (r, e, _, _, _). absurd (ground (arith, e)))
  request_json-expired path p options (some r) kind = (
    λ h. let found = reason.0 (sym heard ∙ h) in (r, refl, found.0, found.1, found.2),
    λ (q, e, listens, own, why).
        heard ∙ reason.1 (listens, own, subst (Expired kind options) (sym (some_inj e)) why),
  )
    where
      reason :
          (announced options.notifies_unauthorized
              (is_cloudflare_access_redirect r)
              ((r.status == 401) && options.creates_auth_error)
              path
            ≡ some (kind, p))
          ↔ ((options.notifies_unauthorized ≡ true) × (p ≡ path) × Expired kind options r)
      reason = announced_iff _ _ _ _ path p kind

      heard :
          (answer_of path options r).expired
          ≡ announced options.notifies_unauthorized
              (is_cloudflare_access_redirect r)
              ((r.status == 401) && options.creates_auth_error)
              path
      heard = notice _ _ _ path _ _ _ (quiet (not (is_ok r)) (r.status == 204) _ _ _)
