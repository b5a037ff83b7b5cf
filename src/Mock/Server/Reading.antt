-- ===== src/Mock/Server/Reading.antt =====
-- How the mock server reads the requests for the pages of lists that the client sends.
use Prim.Native.Char.{Char, code}
use Prim.Native.String
use Prim.Native.String.append
use mathlib.Core.List.{append-nil}
use nutanix_vma.Prelude.{
  ℕ, ◌<◌, ◌==◌, leb, Bool, true, false, not, ◌&&◌, ◌||◌, is_empty, both_true, String, Option, some,
  List, [], ◌∷◌, ◌++◌, ◌≡◌, refl, ap, ◌∙◌, inl, inr, Bool-cases, All, codes, concat, decimal,
  decimal64, half_word, arith, lt→ltb, self→==, ne→==,
}
use nutanix_vma.Prelude.Digits.{IsDigit, codes-concat, decimal-IsDigit}
use nutanix_vma.HttpClient.{Request}
use nutanix_vma.Mock.Range.{parse_natural, digits_value, strip_prefix}
use nutanix_vma.Mock.{Store}
use nutanix_vma.Mock.Handlers.{Fields, Payload, split_first, positive_or, natural_or_zero}
use nutanix_vma.Mock.Range.Bounds.{parse_natural-decimal64}
use nutanix_vma.Mock.Server.{
  strip_text, split_on, query_pieces, query_value, read_request, dispatch, routes, serve,
  serve_target,
}

abbrev pub free_of : (sep : ℕ) → List ℕ → Bool
free_of sep [] = true
free_of sep (c ∷ s) = not (c == sep) && free_of sep s

-- A letter, a digit or a hyphen.
abbrev pub is_plain : ℕ → Bool
is_plain c =
    leb b'a' c && leb c b'z' || leb b'A' c && leb c b'Z' || leb b'0' c && leb c b'9' || c == b'-'

abbrev pub all_plain : List ℕ → Bool
all_plain [] = true
all_plain (c ∷ s) = is_plain c && all_plain s

-- A text that stands for itself in a URL, such as a UUID.
abbrev pub is_identifier : String → Bool
is_identifier text = not (is_empty text) && all_plain (codes text)

all_plain-free :
    (sep : ℕ) (s : List ℕ) → is_plain sep ≡ false → all_plain s ≡ true → free_of sep s ≡ true
all_plain-free sep [] other h = refl
all_plain-free sep (c ∷ s) other h =
    let (first, rest) = both_true (is_plain c) (all_plain s) h in
    rw (ne→== c sep (λ e. let same = ap is_plain e in cc (same, first, other)))
      (all_plain-free sep s other rest)

pub is_identifier-free :
    (sep : ℕ) (text : String)
    → is_plain sep ≡ false
    → is_identifier text ≡ true
    → free_of sep (codes text) ≡ true
is_identifier-free sep text other h =
    all_plain-free sep (codes text) other
      (both_true (not (is_empty text)) (all_plain (codes text)) h).1

pub strip_text-append : (p s : String) → strip_text p (String.◌++◌ p s) ≡ some s
unfolding strip_text
strip_text-append String.[] s = ap some (append.nil s)
strip_text-append (String.◌∷◌ c p) s =
    ap (strip_text (String.◌∷◌ c p)) (append.cons c p s)
    ∙ rw (self→== (code c)) (strip_text-append p s)

pub split_first-append :
    (c : Char) (p s : String)
    → free_of (code c) (codes p) ≡ true
    → split_first (code c) (String.◌++◌ p (String.◌∷◌ c s)) ≡ (p, some s)
unfolding split_first
split_first-append c String.[] s h =
    ap (split_first (code c)) (append.nil (String.◌∷◌ c s)) ∙ rw (self→== (code c)) refl
split_first-append c (String.◌∷◌ d p) s h =
    ap (split_first (code c)) (append.cons d p (String.◌∷◌ c s))
    ∙ elim (Bool-cases (code d == code c)) [
      | inl e ↦ absurd (let q = (rw e at h) in cc q)
      | inr e ↦ rw (e, split_first-append c p s (let q = (rw e at h) in q)) refl
    ]

split_on-free : (sep : ℕ) (s : List ℕ) → free_of sep s ≡ true → split_on sep s ≡ s ∷ []
unfolding split_on
split_on-free sep [] h = refl
split_on-free sep (c ∷ s) h = elim (Bool-cases (c == sep)) [
  | inl e ↦ absurd (let q = (rw e at h) in cc q)
  | inr e ↦ rw (e, split_on-free sep s (let q = (rw e at h) in q)) refl
]

pub free_of-digits : (s : List ℕ) → All IsDigit s → free_of b'&' s ≡ true
free_of-digits [] h = refl
free_of-digits (c ∷ s) h =
    rw (ne→== c b'&' (λ e. absurd (omega (arith, h.0, e)))) (free_of-digits s h.1)

pub decimal-decimal64 : (n : ℕ) → n < half_word → decimal n ≡ decimal64 n
unfolding decimal64
decimal-decimal64 n h = rw (lt→ltb n half_word h) refl

pub natural_or_zero-decimal : (n : ℕ) → n < half_word → natural_or_zero (codes (decimal n)) ≡ n
unfolding natural_or_zero
natural_or_zero-decimal n h =
    rw (decimal-decimal64 n h, natural_or_zero, parse_natural-decimal64 n h) refl

-- The pieces of the query for a page.
pub page_query : (offset : ℕ) → String
page_query offset = concat ("$top=" ∷ decimal 500 ∷ "&$skip=" ∷ decimal offset ∷ [])

page_query-codes :
    (offset : ℕ)
    → codes (page_query offset)
      ≡ codes "$top=500" ++ b'&' ∷ codes "$skip=" ++ codes (decimal offset)
unfolding page_query decimal
page_query-codes offset =
    codes-concat ("$top=" ∷ decimal 500 ∷ "&$skip=" ∷ decimal offset ∷ [])
    ∙ ap (λ x. codes "$top=500" ++ b'&' ∷ codes "$skip=" ++ x) (append-nil (codes (decimal offset)))

page_query-pieces :
    (offset : ℕ)
    → offset < half_word
    → query_pieces (some (page_query offset))
      ≡ codes "$top=500" ∷ (codes "$skip=" ++ codes (decimal offset)) ∷ []
unfolding query_pieces split_on
page_query-pieces offset h =
    ap (split_on b'&') (page_query-codes offset)
    ∙ rw
        (split_on-free b'&' (codes (decimal offset))
          (free_of-digits (codes (decimal offset)) (decimal-IsDigit offset)))
        refl

-- What the server makes of the request for a page: its path, and the page that is asked for.
pub target-page :
    (host path : String) (offset : ℕ)
    → free_of b'?' (codes path) ≡ true
    → (target : String) × (strip_text host
          (concat (host ∷ path ∷ "?$top=" ∷ decimal 500 ∷ "&$skip=" ∷ decimal offset ∷ []))
        ≡ some target)
      × (split_first b'?' target ≡ (path, some (page_query offset)))
unfolding page_query
target-page host path offset h = (
  _,
  strip_text-append host _,
  ap (λ x. split_first b'?' (String.◌++◌ path x)) (append.cons "?" "$top=" _)
      ∙ split_first-append "?" path (page_query offset) h,
)

pub read_request-top :
    (fields : String → Option Fields) (r : Request) (offset : ℕ)
    → offset < half_word
    → positive_or 500 (read_request fields r (some (page_query offset))).top ≡ 500
unfolding read_request query_value positive_or parse_natural digits_value strip_prefix
read_request-top fields r offset h = rw (page_query-pieces offset h) refl

pub read_request-skip :
    (fields : String → Option Fields) (r : Request) (offset : ℕ)
    → offset < half_word
    → natural_or_zero (read_request fields r (some (page_query offset))).skip ≡ offset
unfolding read_request query_value strip_prefix
read_request-skip fields r offset h =
    rw (page_query-pieces offset h) (natural_or_zero-decimal offset h)

-- What is served for a URL is the choice of the multiplexer for its path.
pub serve-target :
    (encode : Payload → String) (fields : String → Option Fields) (url : String) (r : Request)
    (s : Store) (target path : String) (query : Option String)
    → strip_text url r.url ≡ some target
    → split_first b'?' target ≡ (path, query)
    → serve encode fields url r s
      ≡ some (dispatch (routes url) path (read_request fields r query) s)
unfolding serve serve_target
serve-target encode fields url r s target path query stripped split =
    rw (serve, stripped)
      (ap (λ parts. some (dispatch (routes url) parts.0 (read_request fields r parts.1) s)) split)
