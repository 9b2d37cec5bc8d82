-- ===== src/StacksClient/Requests.antt =====
-- Which requests the client sends.
use Prim.Native.String.{◌++◌ as ◌<>◌}
use spox.Prelude.{
  ℕ, String, Option, none, some, List, [], ◌∷◌, map, length, ◌⊎◌, inl, inr, ◌≡◌, refl, ◌∙◌,
}
use spox.Error.{
  Error, Result, ok, err, stacks_node_response, path_join, clarity_value_serialization,
}
use spox.Result
use spox.Result.{map_err}
use spox.Exec.{Exec, lift, ◌>>=◌}
use spox.Clarity.{Value}
use spox.StacksApi.{StacksTransaction}
use spox.StacksClient.{
  Http, Request, Response, StacksClient, url_of, send, get_request, get_json, read_path,
  serialize_all, read_request, submit_request, get_data_var, call_read, get_account, get_node_info,
  submit_tx, get_current_signers_aggregate_key,
}

module _ {W : Type 0} (http : Http W) where
  -- A call sends one request of a kind, or it is refused before that and returns an error.
  pub data SendsOne {A : Type 0} (Refused : Type 0) (Kind : Request → Type 0) (m : Exec W A) (w : W)
      : Type 0 where
    unsent : (e : Error) → Refused → m w ≡ (err e, w) → SendsOne Refused Kind m w
    sent : (r : Request) → Kind r → (m w).1 ≡ (http.send r w).1 → SendsOne Refused Kind m w

  -- A step that sends nothing leaves the world as it is.
  abbrev IsQuiet : {A B : Type 0} → (A → Exec W B) → Type 0
  IsQuiet {A} f = (a : A) (w : W) → (f a w).1 ≡ w

  quiet_after :
      {A B : Type 0} (r : Result A) (f : A → Exec W B) (w : W)
      → IsQuiet f
      → (((λ t. (r, t)) >>= f) w).1 ≡ w
  quiet_after (ok a) f w h = h a w
  quiet_after (err e) f w h = refl

  then_quiet :
      {A B Refused : Type 0} {Kind : Request → Type 0} (m : Exec W A) (f : A → Exec W B) (w : W)
      → IsQuiet f
      → SendsOne Refused Kind m w
      → SendsOne Refused Kind (m >>= f) w
  then_quiet m f w h (unsent e why q) = unsent e why (rw q refl)
  then_quiet m f w h (sent r kind q) = sent r kind (quiet_after (m w).0 f (m w).1 h ∙ q)

  -- A step that may be refused before the request.
  checked :
      {A B Refused : Type 0} {Kind : Request → Type 0} (r : Result A) (f : A → Exec W B) (w : W)
      → ((e : Error) → r ≡ err e → Refused)
      → ((a : A) → r ≡ ok a → SendsOne Refused Kind (f a) w)
      → SendsOne Refused Kind (lift r >>= f) w
  checked {Refused = Refused} {Kind = Kind} (ok a) f w why h = by_sent (h a refl)
    where
      by_sent : SendsOne Refused Kind (f a) w → SendsOne Refused Kind (lift (ok a) >>= f) w
      by_sent (unsent e reason q) = unsent e reason q
      by_sent (sent r kind q) = sent r kind q
  checked (err e) f w why h = unsent e (why e refl) refl

module _ {W : Type 0} (http : Http W) (client : StacksClient) where
  -- A request with this method, headers and body, to the URL of a path at the client's endpoint.
  pub record IsRequest (method path : String) (headers : List (String × String))
      (body : Option (List ℕ)) (r : Request) : Type 0 where
    pub same_method : r.method ≡ method
    pub same_url : http.join client.endpoint path ≡ inr r.url
    pub same_headers : r.headers ≡ headers
    pub same_body : r.body ≡ body

  -- A GET has the client's own headers and no body.
  abbrev pub IsGet : String → Request → Type 0
  IsGet path r = IsRequest "GET" path client.default_headers none r

  abbrev pub tip_query : Option String → String
  tip_query none = "?tip=latest"
  tip_query (some tip) = "?tip=" <> tip

  abbrev pub target : String → String → String → Option String → String
  target principal name function tip =
      "/v3/contracts/fast-call-read/"
      <> principal
      <> "/"
      <> name
      <> "/"
      <> function
      <> tip_query tip

  -- A read carries its sender and its arguments, each as the hex of its serialization.
  abbrev pub IsRead :
      String → String → String → String → List Value → Option String → Request → Type 0
  IsRead principal name function sender arguments tip r =
      (hexes : List String) × (map http.serialize_to_hex arguments ≡ map inr hexes)
      × IsRequest "POST" (target principal name function tip) client.default_headers
          (some (http.json_call_read_request (record { sender = sender; arguments = hexes }))) r

  -- A transaction is sent as the bytes of its serialization, with their type and their number.
  abbrev pub IsSubmission : StacksTransaction → Request → Type 0
  IsSubmission tx r =
      let bytes = http.serialize_tx tx in
      IsRequest "POST" "/v2/transactions"
        (("content-type", "application/octet-stream")
          ∷ ("content-length", http.print_nat (length bytes))
          ∷ client.default_headers)
        (some bytes) r

  -- What is refused: a path that makes no URL with the endpoint, and an argument without a
  -- serialization.
  abbrev pub Unjoined : String → Type 0
  Unjoined path = (message : String) × (http.join client.endpoint path ≡ inl message)

  abbrev pub Unserializable : List Value → Type 0
  Unserializable [] = ⊥
  Unserializable (v ∷ vs) =
      ((message : String) × (http.serialize_to_hex v ≡ inl message)) ⊎ Unserializable vs

  unjoined : (path : String) (e : Error) → url_of http client path ≡ err e → Unjoined path
  unjoined path e h = of_answer (http.join client.endpoint path) refl h
    where
      of_answer :
          (o : String ⊎ String)
          → http.join client.endpoint path ≡ o
          → map_err (λ m. path_join m client.endpoint path) o ≡ err e
          → Unjoined path
      of_answer (inl message) q h = (message, q)
      of_answer (inr url) q h = absurd (cc)

  unserialized :
      (vs : List Value) (e : Error) → serialize_all http client vs ≡ err e → Unserializable vs
  unserialized [] e h = absurd (cc)
  unserialized (v ∷ vs) e h = of_first (unserialized vs) (http.serialize_to_hex v) refl h
    where
      of_rest :
          (earlier : (e' : Error) → serialize_all http client vs ≡ err e' → Unserializable vs)
          (x : String) (r : Result (List String))
          → serialize_all http client vs ≡ r
          → Result.◌>>=◌ r (λ xs. ok (x ∷ xs)) ≡ err e
          → Unserializable vs
      of_rest earlier x (err e') q h = earlier e' q
      of_rest earlier x (ok xs) q h = absurd (cc)

      of_first :
          (earlier : (e' : Error) → serialize_all http client vs ≡ err e' → Unserializable vs)
          (o : String ⊎ String)
          → http.serialize_to_hex v ≡ o
          → Result.◌>>=◌
              (map_err clarity_value_serialization o)
              (λ x. Result.◌>>=◌ (serialize_all http client vs) (λ xs. ok (x ∷ xs)))
            ≡ err e
          → Unserializable (v ∷ vs)
      of_first earlier (inl message) q h = inl (message, q)
      of_first earlier (inr x) q h = inr (of_rest earlier x (serialize_all http client vs) refl h)

  joined :
      (path url : String)
      → url_of http client path ≡ ok url
      → http.join client.endpoint path ≡ inr url
  joined path url e = Result.map_err-ok _ _ url e

  sends_request :
      {A Refused : Type 0} {Kind : Request → Type 0} (r : Request) (f : Response → Exec W A) (w : W)
      → Kind r
      → IsQuiet http f
      → SendsOne http Refused Kind (send http client r >>= f) w
  sends_request r f w kind quiet = then_quiet http (send http client r) f w quiet (sent r kind refl)

  get_json-SendsOne :
      {A : Type 0} (path : String) (json : String → String ⊎ A) (w : W)
      → SendsOne http (Unjoined path) (IsGet path) (get_json http client path json) w
  get_json-SendsOne path json w =
      checked http (url_of http client path) _ w (unjoined path) λ url e.
        sends_request (get_request http client url) _ w
          (record {
            same_method = refl;
            same_url = joined path url e;
            same_headers = refl;
            same_body = refl;
          })
          λ response w'.
            quiet_after http (map_err stacks_node_response (http.error_for_status response)) _ w'
              λ success w''. refl

  serialized :
      (vs : List Value) (hexes : List String)
      → serialize_all http client vs ≡ ok hexes
      → map http.serialize_to_hex vs ≡ map inr hexes
  serialized [] [] h = refl
  serialized [] (x ∷ hexes) h = absurd (cc)
  serialized (v ∷ vs) hexes h =
      let (x, first, rest) =
        Result.bind-ok (map_err clarity_value_serialization (http.serialize_to_hex v)) _ hexes h in
      let (xs, later, made) = Result.bind-ok (serialize_all http client vs) _ hexes rest in
      rw (← Result.ok-inj made, Result.map_err-ok _ _ x first, serialized vs xs later) refl

  target_lem :
      (principal name function : String) (tip : Option String)
      → read_path http client principal name function tip ≡ target principal name function tip
  target_lem principal name function none = refl
  target_lem principal name function (some tip) = refl

  pub requests_sound :
      (address name var function sender : String) (arguments : List Value) (tip : Option String)
      (tx : StacksTransaction) (w : W)
      → let var_path = "/v2/data_var/" <> address <> "/" <> name <> "/" <> var <> "?proof=0" in
        let account_path = "/v2/accounts/" <> address <> "?proof=0" in
        let key_path =
          "/v2/data_var/" <> address <> "/sbtc-registry/current-aggregate-pubkey?proof=0" in
        SendsOne http
          (Unjoined var_path)
          (IsGet var_path)
          (get_data_var http client address name var)
          w
        × SendsOne http
            (Unjoined (target address name function tip) ⊎ Unserializable arguments)
            (IsRead address name function sender arguments tip)
            (call_read http client address name function sender arguments tip)
            w
        × SendsOne http
            (Unjoined account_path)
            (IsGet account_path)
            (get_account http client address)
            w
        × SendsOne http (Unjoined "/v2/info") (IsGet "/v2/info") (get_node_info http client) w
        × SendsOne http (Unjoined "/v2/transactions") (IsSubmission tx) (submit_tx http client tx) w
        × SendsOne http
            (Unjoined key_path)
            (IsGet key_path)
            (get_current_signers_aggregate_key http client address)
            w
  unfolding get_data_var call_read get_account get_node_info submit_tx
      get_current_signers_aggregate_key
  requests_sound address name var function sender arguments tip tx w =
      let read = read_path http client address name function tip in
      (
        get_json-SendsOne _ _ w,
        checked http (url_of http client read) _ w
            (λ e h. inl (rw (target_lem address name function tip) at (unjoined read e h)))
            λ url e.
              checked http (serialize_all http client arguments) _ w
                (λ e h. inr (unserialized arguments e h))
                λ hexes done.
                  sends_request (read_request http client url sender hexes) _ w
                    (
                      hexes,
                      serialized arguments hexes done,
                      record {
                        same_method = refl;
                        same_url = rw (target_lem address name function tip) at (joined _ url e);
                        same_headers = refl;
                        same_body = refl;
                      },
                    )
                    λ response w'. refl,
        then_quiet http _ _ w (λ entry w'. refl) (get_json-SendsOne _ _ w),
        get_json-SendsOne _ _ w,
        checked http (url_of http client "/v2/transactions") _ w (unjoined _) λ url e.
            sends_request (submit_request http client url (http.serialize_tx tx)) _ w
              (record {
                same_method = refl;
                same_url = joined _ url e;
                same_headers = refl;
                same_body = refl;
              })
              λ response w'. refl,
        then_quiet http _ _ w (λ value w'. refl) (get_json-SendsOne _ _ w),
      )
