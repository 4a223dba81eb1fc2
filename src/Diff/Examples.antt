-- ===== src/Diff/Examples.antt =====
-- src/diff.rs at two concrete reports, of values that hold what the comparison looks at.
use whykey.Prelude.{
  Bool, true, false, ◌&&◌, Text, List, [], ◌∷◌, Option, none, some, ◌≡◌, ◌↔◌, refl, ap, map, text,
  text_eq, text_eq_sound, text_eq_refl, if◌then◌else◌, &&-true,
}
use mathlib.Core.Path.{ap₂}
use whykey.Diff.Values.{Values, DecidesEq}
use whykey.Diff.Compare.{Change, report_of, request_key, document_context, compare_documents}
use whykey.Diff.Same.{SameRoute, SameSteps, compare_documents-Same}
use whykey.Diff.Found.{InDocuments, In-compare_documents}
use whykey.Hyprland.States.{In}

data Doc : Type 0 where
  null_doc : Doc
  word : Text → Doc
  layer : Text → Doc
  route : List Text → Doc
  report_doc : List Text → Doc

abbrev all_eq : List Text → List Text → Bool
all_eq [] [] = true
all_eq [] (t ∷ ts) = false
all_eq (s ∷ ss) [] = false
all_eq (s ∷ ss) (t ∷ ts) = text_eq s t && all_eq ss ts

abbrev doc_eq : Doc → Doc → Bool
doc_eq null_doc null_doc = true
doc_eq (word s) (word t) = text_eq s t
doc_eq (layer s) (layer t) = text_eq s t
doc_eq (route s) (route t) = all_eq s t
doc_eq (report_doc s) (report_doc t) = all_eq s t
doc_eq _ _ = false

abbrev member : Text → Doc → Option Doc
member name (layer s) = if text_eq name (text "layer") then some (word s) else none
member name (report_doc layers) = if text_eq name (text "path") then some (route layers) else none
member name _ = none

abbrev elements : Doc → Option (List Doc)
elements (route layers) = some (map layer layers)
elements _ = none

abbrev string : Doc → Option Text
string (word s) = some s
string _ = none

abbrev docs : Values Doc
docs = record {
  null = null_doc;
  get = member;
  as_array = elements;
  as_str = string;
  is_object = λ d. false;
  eq = doc_eq;
}

all_eq_sound : (ss ts : List Text) → all_eq ss ts ≡ true → ss ≡ ts
all_eq_sound [] [] h = refl
all_eq_sound [] (t ∷ ts) h = cc
all_eq_sound (s ∷ ss) [] h = cc
all_eq_sound (s ∷ ss) (t ∷ ts) h =
    let (e, f) = &&-true (text_eq s t) (all_eq ss ts) h in
    ap₂ (λ (x : Text) (xs : List Text). x ∷ xs) (text_eq_sound s t e) (all_eq_sound ss ts f)

all_eq_refl : (ss : List Text) → all_eq ss ss ≡ true
all_eq_refl [] = refl
all_eq_refl (s ∷ ss) = rw (text_eq_refl s) (all_eq_refl ss)

doc_eq_refl : (a : Doc) → doc_eq a a ≡ true
doc_eq_refl null_doc = refl
doc_eq_refl (word s) = text_eq_refl s
doc_eq_refl (layer s) = text_eq_refl s
doc_eq_refl (route s) = all_eq_refl s
doc_eq_refl (report_doc s) = all_eq_refl s

doc_eq_sound : (a b : Doc) → doc_eq a b ≡ true → a ≡ b
doc_eq_sound null_doc null_doc h = refl
doc_eq_sound (word s) (word t) h = ap word (text_eq_sound s t h)
doc_eq_sound (layer s) (layer t) h = ap layer (text_eq_sound s t h)
doc_eq_sound (route s) (route t) h = ap route (all_eq_sound s t h)
doc_eq_sound (report_doc s) (report_doc t) h = ap report_doc (all_eq_sound s t h)
doc_eq_sound _ _ h = cc

docs_decide : DecidesEq docs
docs_decide = record { sound = doc_eq_sound; same = doc_eq_refl }

abbrev old_report : Doc
old_report = report_doc (text "tmux" ∷ text "bash" ∷ [])

abbrev new_report : Doc
new_report = report_doc (text "tmux" ∷ [])

one_change :
    compare_documents docs old_report new_report
    ≡ record { path = text "path[1].bash"; before = some (layer (text "bash")); after = none } ∷ []
unfolding compare_documents text_eq
one_change = refl

compare_documents-Same_example : (compare_documents docs old_report new_report ≡ []) ↔ (
    (document_context docs old_report (report_of docs old_report)
      ≡ document_context docs new_report (report_of docs new_report))
    × (request_key docs (report_of docs old_report) ≡ request_key docs (report_of docs new_report))
    × SameRoute docs docs_decide (report_of docs old_report) (report_of docs new_report)
    × SameSteps docs docs_decide (report_of docs old_report) (report_of docs new_report))
compare_documents-Same_example = compare_documents-Same docs docs_decide old_report new_report

abbrev bash_is_gone : Change Doc
bash_is_gone = record {
  path = text "path[1].bash";
  before = some (layer (text "bash"));
  after = none;
}

In-compare_documents_example :
    In bash_is_gone (compare_documents docs old_report new_report)
    ↔ InDocuments docs docs_decide bash_is_gone old_report new_report
In-compare_documents_example =
    In-compare_documents docs docs_decide bash_is_gone old_report new_report
