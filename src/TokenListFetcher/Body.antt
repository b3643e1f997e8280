-- ===== src/TokenListFetcher/Body.antt =====
-- `read_body_capped` of src/services/token_list_fetcher.rs. A response is its `Content-Length` and
-- what its body stream yields; a byte is a number. `to_text` writes a number in a message.
use balances_watcher.Base.{
  ℕ, ◌+◌, ◌≤◌, ◌≡◌, refl, sym, ap, ◌∙◌, inl, inr, ◌↔◌, Bool, false, List, [], ◌∷◌, ◌++◌, Option,
  none, some, String, Result, ok, err, ltb, if◌then◌else◌, length, length-append, arith, Bool-cases,
  map,
}
use balances_watcher.Base.Text.{◌^^◌}
use balances_watcher.Base.Sort.{concat}
use mathlib.Core.List.{append_assoc, append-nil}

pub record Response : Type 0 where
  pub content_length : Option ℕ
  pub bytes_stream : List (Result String (List ℕ))

module _ (to_text : ℕ → String) where
  -- The loop over the stream.
  unfoldable pub read_chunks : ℕ → List (Result String (List ℕ)) → List ℕ → Result String (List ℕ)
  read_chunks cap [] body = ok body
  read_chunks cap (err e ∷ chunks) body = err e
  read_chunks cap (ok chunk ∷ chunks) body =
      let rest = read_chunks cap chunks (body ++ chunk) in
      if ltb cap (length body + length chunk)
      then err ("token list response exceeded " ^^ to_text cap ^^ " bytes cap")
      else rest

  -- The guard on the header.
  unfoldable pub is_too_large : ℕ → Option ℕ → Bool
  is_too_large cap none = false
  is_too_large cap (some len) = ltb cap len

  unfoldable pub length_text : Option ℕ → String
  length_text none = ""
  length_text (some len) = to_text len

  unfoldable pub read_body_capped : Response → ℕ → Result String (List ℕ)
  unfolding read_chunks is_too_large length_text
  read_body_capped response cap =
      if is_too_large cap response.content_length
      then err (
          "token list response too large: "
          ^^ length_text response.content_length
          ^^ " bytes (cap: "
          ^^ to_text cap
          ^^ ")")
      else read_chunks cap response.bytes_stream []

  read_chunks-ok :
      (cap : ℕ) (chunks : List (List ℕ)) (body : List ℕ)
      → length body + length (concat chunks) ≤ cap
      → read_chunks cap (map (λ c. ok c) chunks) body ≡ ok (body ++ concat chunks)
  unfolding read_chunks
  read_chunks-ok cap [] body within = ap (λ b. ok b) (sym (append-nil body))
  read_chunks-ok cap (chunk ∷ chunks) body within =
      let longer = length-append chunk (concat chunks) in
      let both = length-append body chunk in
      let fits : ltb cap (length body + length chunk) ≡ false = ground (arith, longer, within) in
      rw fits (
        read_chunks-ok cap chunks (body ++ chunk) (omega (arith, longer, both, within))
        ∙ ap (λ b. ok b) (append_assoc body chunk (concat chunks)))

  -- What a stream without an error brings in all.
  abbrev pub Brings : ℕ → List (Result String (List ℕ)) → List ℕ → List ℕ → Type 0
  Brings cap stream body whole =
      (chunks : List (List ℕ)) × (stream ≡ map (λ c. ok c) chunks)
      × (whole ≡ body ++ concat chunks)
      × (length whole ≤ cap)

  Brings-cons :
      (cap : ℕ) (chunk : List ℕ) (stream : List (Result String (List ℕ))) (body whole : List ℕ)
      → Brings cap stream (body ++ chunk) whole
      → Brings cap (ok chunk ∷ stream) body whole
  Brings-cons cap chunk stream body whole (chunks, same, joined, within) = (
    chunk ∷ chunks,
    ap (λ rest. ok chunk ∷ rest) same,
    joined ∙ append_assoc body chunk (concat chunks),
    within,
  )

  read_chunks-Brings :
      (cap : ℕ) (stream : List (Result String (List ℕ))) (body whole : List ℕ)
      → length body ≤ cap
      → read_chunks cap stream body ≡ ok whole
      → Brings cap stream body whole
  unfolding read_chunks
  read_chunks-Brings cap [] body whole within done =
      let same : whole ≡ body = cc in ([], refl, same ∙ sym (append-nil body), rw same within)
  read_chunks-Brings cap (err e ∷ stream) body whole within done = absurd cc
  read_chunks-Brings cap (ok chunk ∷ stream) body whole within done =
      elim (Bool-cases (ltb cap (length body + length chunk))) [
        | inl over ↦ absurd (let failed = rw over at done in cc)
        | inr fits ↦ Brings-cons cap chunk stream body whole (
            read_chunks-Brings cap stream (body ++ chunk) whole
              (ground (arith, fits, length-append body chunk)) (rw fits at done))
      ]

  Brings-read_chunks :
      (cap : ℕ) (stream : List (Result String (List ℕ))) (whole : List ℕ)
      → Brings cap stream [] whole
      → read_chunks cap stream [] ≡ ok whole
  Brings-read_chunks cap stream whole (chunks, same, joined, within) =
      rw (same, joined)
        (read_chunks-ok cap chunks []
          (let short : length (concat chunks) ≤ cap = rw (← joined) within in omega arith))

  within_header_iff :
      (cap : ℕ) (content_length : Option ℕ)
      → is_too_large cap content_length ≡ false
        ↔ ((len : ℕ) → content_length ≡ some len → len ≤ cap)
  unfolding is_too_large
  within_header_iff cap none = (λ h len e. absurd cc, λ h. refl)
  within_header_iff cap (some len) = (
    λ h other e. let same : len ≡ other = cc in ground (arith, h),
    λ h. ground (arith, h len refl),
  )

  -- A body is read exactly if the length in the header, where there is one, and that of the whole body
  -- are within the cap and the stream has no error; it is then the chunks, joined.
  pub read_body_capped_iff :
      (response : Response) (cap : ℕ) (body : List ℕ)
      → read_body_capped response cap ≡ ok body ↔ (
          ((len : ℕ) → response.content_length ≡ some len → len ≤ cap)
          × Brings cap response.bytes_stream [] body)
  unfolding read_body_capped
  read_body_capped_iff response cap body =
      elim (Bool-cases (is_too_large cap response.content_length)) [
        | inl over ↦ rw over (
          λ h. absurd cc,
          λ h. absurd (let fits = (within_header_iff cap response.content_length).1 h.0 in cc),
        )
        | inr fits ↦ rw fits (
          λ h. (
            (within_header_iff cap response.content_length).0 fits,
            read_chunks-Brings cap _ [] body (omega arith) h,
          ),
          λ h. Brings-read_chunks cap response.bytes_stream body h.1,
        )
      ]
