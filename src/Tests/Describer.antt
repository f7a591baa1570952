-- ===== src/Tests/Describer.antt =====
-- A description that is made once, and given back for another thumbnail.
use image_descriptor.Prelude.{
  ◌-◌, ℕ, ◌≡◌, refl, String, true, Option, none, some, [], ◌∷◌, min, arith,
}
use image_descriptor.Errors.{Error, ok, transport_error}
use image_descriptor.Cache.{Cache, fine, empty, get, set, found, write}
use image_descriptor.Cache.Rows.{select}
use image_descriptor.Thumbnail.{raises, image_of}
use image_descriptor.Describer.{Network, Subject, Call, described, describe_image}
use image_descriptor.Describer.Again.{describe_image_again}
use image_descriptor.Describer.Resize.{Pillow, shrunk, as_rgb, resize_for_gemini}
use image_descriptor.Describer.Resize.Fitted.{IsPillow, IsSent, resize_for_gemini-IsSent}

abbrev gone : Error
gone = record { kind = transport_error; text = "gone" }

abbrev network : Network
network = record {
  hostname = λ url. none;
  resolve = λ host. none;
  max_download = 10;
  retries = λ n outcomes. n - 1;
  max_redirects = 5;
  after_comma = λ uri. none;
  decode = λ thumbnail. ok (1 ∷ []);
}

abbrev harbour : Call ℕ
harbour = record {
  select_error = none;
  delete_fault = fine;
  get_at = 5;
  set_fault = fine;
  set_at = 6;
  respond = λ attempt url. raises gone;
  resize = λ image. ok image;
  today = "2024-05-01";
  span = λ bbox. ("1.0", "2.0");
  generate = λ image prompt. ok "A harbour.";
}

abbrev forest : Call ℕ
forest = record harbour { get_at = 70000000; generate = λ image prompt. ok "A forest." }

abbrev subject : String → Subject ℕ
subject thumbnail = record {
  thumbnail = thumbnail;
  place_name = "Busan";
  captured_at = "";
  land_cover_summary = "";
  bbox = some 3;
}

abbrev loads : String → Option String
loads s = some s

abbrev dumps : String → String
dumps s = s

abbrev first : Cache
first = (describe_image dumps loads network harbour (some "id-1") (subject "aGFyYm91cg==") empty).1

given_back :
    let later =
      describe_image dumps loads network forest (some "id-1") (subject "Zm9yZXN0") first in
    (later.0 ≡ ok ("A harbour.", true)) × (later.2 ≡ [])
unfolding describe_image described get set write select found image_of
given_back =
    describe_image_again loads dumps network harbour forest "id-1" "A harbour."
      (subject "aGFyYm91cg==") (subject "Zm9yZXN0") empty first [] refl refl refl refl refl

-- an image is its two edges and its mode
abbrev sized : Pillow (ℕ × ℕ × String)
sized = record {
  open_image = λ bytes. ok (1024, 512, "L");
  width = λ img. img.0;
  height = λ img. img.1;
  mode = λ img. img.2;
  thumbnail = λ img w h. ok (min img.0 w, min img.1 h, img.2);
  convert = λ img mode. ok (img.0, img.1, mode);
  save = λ img format quality. ok (img.0 ∷ img.1 ∷ []);
}

ok-inj : {A : Type 0} {a b : A} → ok a ≡ ok b → a ≡ b
ok-inj e = ground (arith, e)

sized-IsPillow : IsPillow sized
sized-IsPillow = record {
  thumbnail_width = λ img out w h p q e. rw (← ok-inj e) (omega arith);
  thumbnail_height = λ img out w h p q e. rw (← ok-inj e) (omega arith);
  convert_mode = λ img out mode e. rw (← ok-inj e) refl;
  convert_width = λ img out mode e. rw (← ok-inj e) refl;
  convert_height = λ img out mode e. rw (← ok-inj e) refl;
}

resize_for_gemini-IsSent_example :
    IsSent sized sized-IsPillow 768 (omega arith) [] (resize_for_gemini sized 768 [])
resize_for_gemini-IsSent_example =
    resize_for_gemini-IsSent sized sized-IsPillow 768 (omega arith) []

resized : resize_for_gemini sized 768 [] ≡ ok (768 ∷ 512 ∷ [])
unfolding resize_for_gemini shrunk as_rgb
resized = refl
