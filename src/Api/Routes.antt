-- ===== src/Api/Routes.antt =====
-- The routes of `dispatch`, the actions that they stand for, and the reason phrases.
use linguaray.Base.{
  ℕ, ◌-◌, Bool, true, false, not, ◌&&◌, ◌||◌, Option, none, some, List, [], ◌∷◌, ◌==◌,
  if◌then◌else◌, is_empty, any, length, take, Text, codes, same, strip_prefix, ends_with,
}

pub data ExternalActionKind : Type 0 where
  translate_text translate_selection translate_input translate_clipboard capture_translate :
      ExternalActionKind
  capture_ocr clipboard_ocr show_translation_window show_ocr_window open_settings :
      ExternalActionKind

pub record ExternalActionRequest : Type 0 where
  pub kind : ExternalActionKind
  pub content : Option Text

-- What stands in the arms of the `match` on method and path
pub data Route : Type 0 where
  text_route : Bool → Route
  action_route : ExternalActionKind → Route
  index_route health_route openapi_route reference_route : Route

abbrev post : Text → Route → Text × Text × Route
post path route = (codes "POST", path, route)

abbrev get : Text → Route → Text × Text × Route
get path route = (codes "GET", path, route)

-- The arms in their order
abbrev pub routes : List (Text × Text × Route)
routes =
    post (codes "/") (text_route false)
    ∷ post (codes "/translate") (text_route false)
    ∷ post (codes "/actions/translate") (text_route true)
    ∷ get (codes "/config") (action_route open_settings)
    ∷ post (codes "/actions/settings") (action_route open_settings)
    ∷ get (codes "/selection_translate") (action_route translate_selection)
    ∷ post (codes "/actions/translate-selection") (action_route translate_selection)
    ∷ get (codes "/input_translate") (action_route translate_input)
    ∷ post (codes "/actions/translate-input") (action_route translate_input)
    ∷ get (codes "/clipboard_translate") (action_route translate_clipboard)
    ∷ post (codes "/actions/translate-clipboard") (action_route translate_clipboard)
    ∷ get (codes "/ocr_translate") (action_route capture_translate)
    ∷ post (codes "/actions/capture-translate") (action_route capture_translate)
    ∷ get (codes "/ocr_recognize") (action_route capture_ocr)
    ∷ post (codes "/actions/capture-ocr") (action_route capture_ocr)
    ∷ get (codes "/clipboard_ocr") (action_route clipboard_ocr)
    ∷ post (codes "/actions/clipboard-ocr") (action_route clipboard_ocr)
    ∷ get (codes "/show_translate") (action_route show_translation_window)
    ∷ post (codes "/actions/show-translation-window") (action_route show_translation_window)
    ∷ get (codes "/show_ocr") (action_route show_ocr_window)
    ∷ post (codes "/actions/show-ocr-window") (action_route show_ocr_window)
    ∷ get (codes "/") index_route
    ∷ get (codes "/health") health_route
    ∷ get (codes "/openapi.json") openapi_route
    ∷ get (codes "/reference") reference_route
    ∷ []

-- The first arm that fits
unfoldable pub route_of : Text → Text → List (Text × Text × Route) → Option Route
unfolding same
route_of method path [] = none
route_of method path ((m, p, route) ∷ rest) =
    let later = route_of method path rest in
    if same method m && same path p then some route else later

unfoldable pub route_provider : Text → Text → Text → Option Text
unfolding ends_with
route_provider path prefix suffix = elim (strip_prefix prefix path) [
  | none ↦ none
  | some rest ↦
      let provider = take (length rest - length suffix) rest in
      if not (ends_with rest suffix)
      then none
      else if is_empty provider || any (λ c. c == b'/') provider
      then none
      else some provider
]

-- The reason phrases of `write_response`; any other status reads OK.
unfoldable pub reason_of : ℕ → Text
reason_of status =
    if status == 200
    then codes "OK"
    else if status == 202
    then codes "Accepted"
    else if status == 204
    then codes "No Content"
    else if status == 400
    then codes "Bad Request"
    else if status == 401
    then codes "Unauthorized"
    else if status == 404
    then codes "Not Found"
    else if status == 405
    then codes "Method Not Allowed"
    else if status == 429
    then codes "Too Many Requests"
    else if status == 500
    then codes "Internal Server Error"
    else if status == 502
    then codes "Bad Gateway"
    else codes "OK"
