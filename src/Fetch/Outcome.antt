-- ===== src/Fetch/Outcome.antt =====
-- What fetching the rates of a date changes, for every answer of the network.
use test_assignment.Prelude.{
  ◌≡◌, refl, Bool, true, false, ◌&&◌, ◌||◌, List, [], ◌∷◌, Bytes, codes, same, ◌==◌, arith,
  if◌then◌else◌, List-cases, inl, inr,
}
use test_assignment.Prelude.Result.{Result, ok, ◌>>=◌, catch, Result-cases}
use test_assignment.Text.{strtolower}
use test_assignment.Text.Split.{str_tok}
use test_assignment.Query.{given_date_rates}
use test_assignment.Json.Translate.{deserialize}
use test_assignment.Fetch.{
  Env, World, Config, Response, Send, keep_rates, try_tokens, try_content_type, try_headers,
  fetch_rates, is_valid_currencies_array,
}

-- a part of a media type is "json" in any case
unfoldable pub mentions_json : List Bytes → Bool
mentions_json [] = false
mentions_json (tk ∷ tks) = same (strtolower tk) (codes "json") || mentions_json tks

-- the media type of a header's value, up to the first ";", cut at "/"
unfoldable pub media_parts : List Bytes → List Bytes
media_parts [] = []
media_parts (media ∷ parameters) = str_tok media (codes "/")

-- some content-type header says JSON
unfoldable pub announces_json : List (Bytes × Bytes) → Bool
unfolding mentions_json media_parts
announces_json [] = false
announces_json ((name, value) ∷ hs) =
    (same (strtolower name) (codes "content-type")
      && mentions_json (media_parts (str_tok value (codes ";"))))
    || announces_json hs

module _ (E : Env) (config : Config) where
  -- what a body that is to be read as JSON leads to
  unfoldable pub read_body : Bytes → World E → Result (World E × Bool)
  read_body body w = deserialize E.parse body >>= λ v.
      if is_valid_currencies_array E.R E.C v
      then ok (keep_rates E config v w, true)
      else ok (w, false)

  try_tokens-eq :
      (ts : List Bytes) (body : Bytes) (w : World E)
      → try_tokens E config ts body w
        ≡ (if mentions_json ts then read_body body w else ok (w, false))
  unfolding mentions_json read_body try_tokens
  try_tokens-eq [] body w = refl
  try_tokens-eq (t ∷ ts) body w = ground (arith, try_tokens-eq ts body w)

  try_content_type-eq :
      (value body : Bytes) (w : World E)
      → try_content_type E config value body w ≡ (
          if mentions_json (media_parts (str_tok value (codes ";")))
          then read_body body w
          else ok (w, false))
  unfolding try_content_type mentions_json media_parts
  try_content_type-eq value body w = elim (List-cases (str_tok value (codes ";"))) [
    | inl e ↦ rw (e, try_content_type, media_parts) refl
    | inr (media, parameters, e) ↦
        rw (e, try_content_type, media_parts) (try_tokens-eq (str_tok media (codes "/")) body w)
  ]

  try_headers-eq :
      (hs : List (Bytes × Bytes)) (body : Bytes) (w : World E)
      → try_headers E config hs body w
        ≡ (if announces_json hs then read_body body w else ok (w, false))
  unfolding try_headers read_body announces_json
  try_headers-eq [] body w = refl
  try_headers-eq ((name, value) ∷ hs) body w =
      ground (arith, try_headers-eq hs body w, try_content_type-eq value body w)

  -- The answer, read without the loops of the code.
  unfoldable pub accept : Response → World E → World E × Bool
  accept resp w =
      if resp.code == 200 && announces_json resp.header_fields
      then catch (read_body resp.body w) (w, false)
      else (w, false)

  -- The network's answer leads to stored rates exactly where its code is 200, some content-type
  -- header says JSON, and the body is JSON with a valid array of currencies; then they are added
  -- and saved and the call returns true. In every other case, exceptions included, neither the
  -- stored rates nor the disk have changed, and it returns false.
  pub fetch_rates_lem :
      (send : Send) (date : Bytes) (w : World E)
      → fetch_rates E config send date w
        ≡ catch
            (send (given_date_rates date config.fetched_data_type) >>= λ resp. ok (accept resp w))
            (w, false)
  unfolding fetch_rates accept
  fetch_rates_lem send date w =
      elim (Result-cases (send (given_date_rates date config.fetched_data_type))) [
        | inl (resp, e) ↦
            rw (e, fetch_rates) (ground (arith, try_headers-eq resp.header_fields resp.body w))
        | inr (f, e) ↦ rw (e, fetch_rates) refl
      ]

  -- a call that returns false has changed nothing
  pub fetch_rates-false :
      (send : Send) (date : Bytes) (w : World E)
      → (fetch_rates E config send date w).1 ≡ false
      → fetch_rates E config send date w ≡ (w, false)
  unfolding accept read_body
  fetch_rates-false send date w h = ground (arith, h, fetch_rates_lem send date w)
