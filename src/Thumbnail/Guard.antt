-- ===== src/Thumbnail/Guard.antt =====
-- What the checks of a download guarantee.
use image_descriptor.Prelude.{
  ℕ, zero, suc, ◌+◌, ◌*◌, ◌≤◌, ◌<◌, ◌≡◌, refl, String, true, false, Option, none, some, List, [],
  ◌∷◌, ◌++◌, arith, length, length-append, All, All-append, ltb, inl, inr, Bool-cases,
}
use text.Mathlib.Text.{starts_with}
use image_descriptor.Errors.{Result, ok, err, Result-cases}
use image_descriptor.Thumbnail.{
  Ip, Response, raises, redirects, answers, ContentLength, is_blocked_ip, check_ips, read_chunks,
  read_body, validate_host_ips, validate_thumbnail_url, host_checked, resolved, requests, attempts,
  attempt_of, download_image, validated, received, followed, prepared, relabelled, image_of,
}

read_chunks-le :
    (max_download size : ℕ) (chunks : List (List ℕ)) (image : List ℕ)
    → size ≤ max_download
    → read_chunks max_download size chunks ≡ ok image
    → size + length image ≤ max_download
unfolding read_chunks
read_chunks-le max_download size [] image h e = ground arith
read_chunks-le max_download size (chunk ∷ chunks) image h e =
    elim (Bool-cases (ltb max_download (size + length chunk))) [
      | inl over ↦ absurd (ground arith)
      | inr fits ↦ elim (Result-cases (read_chunks max_download (size + length chunk) chunks)) [
        | inr (x, failed) ↦ absurd (ground arith)
        | inl (rest, done) ↦
            let joined : (chunk ++ rest) ≡ image = ground arith in
            rw (← joined) (
              omega (
                arith,
                length-append chunk rest,
                read_chunks-le max_download (size + length chunk) chunks rest (ground arith) done,
              ))
      ]
    ]

read_body-le :
    (max_download : ℕ) (status : Result (Unit {0})) (content_length : ContentLength)
    (chunks : List (List ℕ)) (image : List ℕ)
    → read_body max_download status content_length chunks ≡ ok image
    → length image ≤ max_download
read_body-le max_download (err x) content_length chunks image e = absurd (ground arith)
read_body-le max_download (ok u) content_length chunks image e =
    omega (arith, read_chunks-le max_download 0 chunks image (omega arith) (ground arith))

check_ips-All : (ips : List Ip) → check_ips ips ≡ ok tt → All (λ ip. is_blocked_ip ip ≡ false) ips
check_ips-All [] h = tt
check_ips-All (ip ∷ ips) h = elim (Bool-cases (is_blocked_ip ip)) [
  | inl blocked ↦ absurd (ground arith)
  | inr free ↦ (free, check_ips-All ips (ground arith))
]

module _ (hostname : String → Option String) (resolve : String → Option (List Ip)) where
  -- an address whose host resolves, and to no blocked address
  abbrev pub IsPublic : String → Type 0
  IsPublic url =
      (host : String) × (ips : List Ip) × (hostname url ≡ some host)
      × (resolve host ≡ some ips)
      × All (λ ip. is_blocked_ip ip ≡ false) ips

  host_checked-IsPublic :
      (url : String) (o : Option String)
      → hostname url ≡ o
      → host_checked hostname resolve o ≡ ok tt
      → IsPublic url
  unfolding validate_host_ips
  host_checked-IsPublic url none e h = absurd (ground arith)
  host_checked-IsPublic url (some host) e h = resolves (resolve host) refl (ground arith)
    where
      resolves :
          (r : Option (List Ip))
          → resolve host ≡ r
          → resolved hostname resolve r ≡ ok tt
          → IsPublic url
      resolves none k g = absurd (ground arith)
      resolves (some ips) k g = (host, ips, e, k, check_ips-All ips g)

  validate-IsPublic :
      (url : String) → validate_thumbnail_url hostname resolve url ≡ ok tt → IsPublic url
  unfolding validate_thumbnail_url
  validate-IsPublic url h = host_checked-IsPublic url (hostname url) refl h

  record Guarded (max_download n : ℕ) (p : Result (List ℕ) × List String) : Type 0 where
    public_only : All IsPublic p.1
    few : length p.1 ≤ n
    small : (image : List ℕ) → p.0 ≡ ok image → length image ≤ max_download

  module _ (max_download : ℕ) (respond : String → Response) where
    followed-Guarded :
        (n : ℕ) (url next : String) (r : Result (Unit {0}))
        (rest : String → Result (List ℕ) × List String)
        → validate_thumbnail_url hostname resolve next ≡ r
        → IsPublic url
        → ((v : String) → IsPublic v → Guarded max_download n (rest v))
        → Guarded max_download
            (suc n)
            (followed hostname resolve max_download respond url next r rest)
    followed-Guarded n url next (err e) rest k p h = record {
      public_only = (p, tt);
      few = omega arith;
      small = λ image x. absurd (ground arith);
    }
    followed-Guarded n url next (ok u) rest k p h =
        let g = h next (validate-IsPublic next k) in
        record { public_only = (p, g.public_only); few = omega (arith, g.few); small = g.small }

    received-Guarded :
        (n : ℕ) (url : String) (r : Response) (rest : String → Result (List ℕ) × List String)
        → IsPublic url
        → ((v : String) → IsPublic v → Guarded max_download n (rest v))
        → Guarded max_download (suc n) (received hostname resolve max_download respond url r rest)
    received-Guarded n url (raises e) rest p h = record {
      public_only = (p, tt);
      few = omega arith;
      small = λ image x. absurd (ground arith);
    }
    received-Guarded n url (redirects next) rest p h =
        followed-Guarded n url next (validate_thumbnail_url hostname resolve next) rest refl p h
    received-Guarded n url (answers status content_length chunks) rest p h = record {
      public_only = (p, tt);
      few = omega arith;
      small = λ image x. read_body-le max_download status content_length chunks image x;
    }

    requests-Guarded :
        (n : ℕ) (url : String)
        → IsPublic url
        → Guarded max_download n (requests hostname resolve max_download respond n url)
    unfolding requests
    requests-Guarded zero url p = record {
      public_only = tt;
      few = omega arith;
      small = λ image x. absurd (ground arith);
    }
    requests-Guarded (suc n) url p =
        received-Guarded n url (respond url)
          (λ next. requests hostname resolve max_download respond n next) p
          (λ v q. requests-Guarded n v q)

  attempts-Guarded :
      (max_download n : ℕ) (attempt : ℕ → Result (List ℕ) × List String)
      → ((k : ℕ) → Guarded max_download n (attempt k))
      → (k : ℕ) → Guarded max_download (suc k * n) (attempts hostname resolve attempt k)
  unfolding attempts
  attempts-Guarded max_download n attempt h zero =
      let g = h zero in
      record { public_only = g.public_only; few = omega (arith, g.few); small = g.small }
  attempts-Guarded max_download n attempt h (suc k) =
      let g = attempts-Guarded max_download n attempt h k in
      let l = h (suc k) in
      let before = (attempts hostname resolve attempt k).1 in
      record {
        public_only = All-append IsPublic before (attempt (suc k)).1 g.public_only l.public_only;
        few = grind (arith, length-append before (attempt (suc k)).1, g.few, l.few);
        small = l.small;
      }

  module _ (max_download : ℕ) (retries : ℕ → (ℕ → Result (List ℕ)) → ℕ)
      (respond : ℕ → String → Response) where
    -- `stop_after_attempt(n)`: at most n attempts, the first one among them
    abbrev pub StopsAfter : Type 0
    StopsAfter = (n : ℕ) (outcomes : ℕ → Result (List ℕ)) → 1 ≤ n → retries n outcomes < n

    -- how many more attempts there are behind the first one of a download
    abbrev more_attempts : ℕ → String → ℕ
    more_attempts max_redirects url =
        retries 3
          (λ n. (attempt_of hostname resolve max_download retries respond max_redirects url n).0)

    few_attempts :
        (max_redirects : ℕ) (url : String)
        → StopsAfter
        → suc (more_attempts max_redirects url) * (max_redirects + 1) ≤ 3 * (max_redirects + 1)
    few_attempts max_redirects url stops =
        let outcomes = λ (n : ℕ).
          (attempt_of hostname resolve max_download retries respond max_redirects url n).0 in
        grind (arith, stops 3 outcomes (omega arith))

    download_image-Guarded :
        (max_redirects : ℕ) (url : String)
        → IsPublic url
        → Guarded max_download
            (suc (more_attempts max_redirects url) * (max_redirects + 1))
            (download_image hostname resolve max_download retries respond max_redirects url)
    unfolding download_image
    download_image-Guarded max_redirects url p =
        attempts-Guarded max_download (max_redirects + 1)
          (attempt_of hostname resolve max_download retries respond max_redirects url)
          (λ n. requests-Guarded max_download (respond n) (max_redirects + 1) url p)
          (more_attempts max_redirects url)

    validated-Guarded :
        (max_redirects : ℕ) (url : String) (r : Result (Unit {0}))
        → validate_thumbnail_url hostname resolve url ≡ r
        → Guarded max_download
            (suc (more_attempts max_redirects url) * (max_redirects + 1))
            (validated hostname resolve max_download retries respond max_redirects url r)
    validated-Guarded max_redirects url (err e) k = record {
      public_only = tt;
      few = omega arith;
      small = λ image x. absurd (ground arith);
    }
    validated-Guarded max_redirects url (ok u) k =
        download_image-Guarded max_redirects url (validate-IsPublic url k)

    module _ (after_comma : String → Option String) (decode : String → Result (List ℕ)) where
      prepared-IsPublic :
          (max_redirects : ℕ) (thumbnail : String)
          → StopsAfter
          → let p =
              prepared hostname resolve max_download retries respond after_comma decode
                max_redirects thumbnail in
            All IsPublic p.1 × (length p.1 ≤ 3 * (max_redirects + 1))
      prepared-IsPublic max_redirects thumbnail stops =
          elim (Bool-cases (starts_with thumbnail "data:image")) [
            | inl inline ↦ rw inline (tt, omega arith)
            | inr other ↦ elim (Bool-cases (starts_with thumbnail "http")) [
              | inr encoded ↦ rw (other, encoded) (tt, omega arith)
              | inl address ↦
                  let g =
                    validated-Guarded max_redirects thumbnail
                      (validate_thumbnail_url hostname resolve thumbnail) refl in
                  rw (other, address)
                    (
                      g.public_only,
                      omega (arith, g.few, few_attempts max_redirects thumbnail stops),
                    )
            ]
          ]

      -- Whatever the thumbnail, every address that is requested for it, in every attempt and with its
      -- redirects, has a host that resolves, and to no blocked address; and there are at most three times
      -- `max_redirects + 1` requests. Tenacity is taken to stop after the number of attempts it is given,
      -- and the resolver to answer the same in all of them.
      pub image_of-IsPublic :
          (max_redirects : ℕ) (thumbnail : String)
          → StopsAfter
          → let urls =
              (image_of hostname resolve max_download retries respond after_comma decode
                max_redirects thumbnail).1 in
            All IsPublic urls × (length urls ≤ 3 * (max_redirects + 1))
      unfolding image_of
      image_of-IsPublic max_redirects thumbnail stops =
          prepared-IsPublic max_redirects thumbnail stops

      relabelled-ok :
          (r : Result (List ℕ)) (image : List ℕ)
          → relabelled hostname resolve max_download retries respond r ≡ ok image
          → r ≡ ok image
      relabelled-ok (ok x) image h = h
      relabelled-ok (err e) image h = absurd (ground arith)

      -- The image that is downloaded for a thumbnail that is an address has at most `max_download` bytes.
      pub image_of-le :
          (max_redirects : ℕ) (thumbnail : String) (image : List ℕ)
          → starts_with thumbnail "data:image" ≡ false
          → starts_with thumbnail "http" ≡ true
          → (image_of hostname resolve max_download retries respond after_comma decode max_redirects
              thumbnail).0
            ≡ ok image
          → length image ≤ max_download
      unfolding image_of
      image_of-le max_redirects thumbnail image other address h =
          let g =
            validated-Guarded max_redirects thumbnail
              (validate_thumbnail_url hostname resolve thumbnail) refl in
          g.small image (relabelled-ok _ image (rw (other, address) at h))
