-- ===== src/Chat/Showing/Tests.antt =====
-- What the chat page shows, at small conversations.
use rafineai_self_hosted.Prelude.{
  ℕ, String, Text, text, trim, true, false, any, Option, some, List, [], ◌∷◌, ◌++◌, ◌≡◌, refl, map,
  if◌then◌else◌,
}
use rafineai_self_hosted.Exec.{Outcome, ok, Done}
use rafineai_self_hosted.Types.{Attachment, ToolContext}
use rafineai_self_hosted.Page.Samples.{server, at_rest, openai_provider}
use rafineai_self_hosted.Stream.{Delivery, delta}
use rafineai_self_hosted.Chat.{Chat, initial, is_usable, receive_providers}
use rafineai_self_hosted.Chat.Content.{document_block, compose, strip_documents}
use rafineai_self_hosted.Chat.Send.{drafts, send_blocked, send}
use rafineai_self_hosted.Chat.View.{
  Entry, entries, empty, body_of, file_of, no_caret, caret_in_place, bubbles_of,
}
use rafineai_self_hosted.Chat.Composer.{
  Key, screenshot_name, send_disabled, input_key, prevents_newline,
}
use rafineai_self_hosted.Chat.Showing.{receive_providers-entries, bubbles_of-drafts, input_key-send}

receive_providers-entries_example :
    any (λ (e : Entry). e.checked) (entries (receive_providers (openai_provider ∷ []) initial))
    ≡ true
unfolding is_usable
receive_providers-entries_example = receive_providers-entries (openai_provider ∷ []) initial refl

abbrev report_pdf : Attachment
unfolding text
report_pdf = record {
  url = "/files/1";
  filename = text "report.pdf";
  content_type = text "application/pdf";
  size = 3;
  text_content = some (text "total: 42");
}

abbrev web_page : ToolContext
unfolding text
web_page = record { label = text "example.com"; text = text "hello" }

abbrev stringify : List Attachment → Text
unfolding text
stringify atts = text "[{…}]"

abbrev parse : Text → Option (List Attachment)
parse t = some (report_pdf ∷ [])

abbrev question : Text
unfolding text
question = text " What is the total? "

bubbles_of-drafts_example :
    bubbles_of parse true (drafts (compose stringify question (report_pdf ∷ []) (web_page ∷ [])))
    ≡ record {
      mine = true;
      body = body_of true (trim question);
      files = map file_of (report_pdf ∷ []);
      caret = no_caret;
    }
      ∷ record { mine = false; body = empty; files = []; caret = caret_in_place }
      ∷ []
unfolding text
bubbles_of-drafts_example =
    bubbles_of-drafts stringify parse question (report_pdf ∷ []) (web_page ∷ []) (text "{…}") refl
      ((refl, refl, refl), ((refl, refl, refl), tt)) refl refl

-- A quote in a name: the block is not stripped, and stays in the bubble.
strip_documents_test :
    strip_documents (text "Hi" ++ document_block (34 ∷ text "x") (text "secret"))
    ≡ text "Hi" ++ document_block (34 ∷ text "x") (text "secret")
unfolding strip_documents document_block text
strip_documents_test = refl

screenshot_name_test : screenshot_name (text "17") (text "image/jpeg") ≡ text "screenshot-17.jpeg"
unfolding screenshot_name text
screenshot_name_test = refl

abbrev stream : String → Text → ℕ → List Delivery × Outcome Done × ℕ
stream id content w = (delta (text "Mer") ∷ [], ok tt, w)

abbrev typing : Chat
typing = record initial { input = text "Merhaba"; active_id = some "c1" }

abbrev enter : Key
enter = record { name = "Enter"; shift = false }

input_key-send_example :
    (input_key server stream stringify enter (at_rest typing)
      ≡ send server stream stringify (at_rest typing))
    × (send server stream stringify (at_rest typing) ≡ (
        if send_disabled typing
        then (ok tt, at_rest typing)
        else send server stream stringify (at_rest typing)))
    × (send_blocked typing ≡ send_disabled typing)
unfolding prevents_newline
input_key-send_example = input_key-send server stream stringify enter (at_rest typing) refl
