-- ===== src/Http/Showing.antt =====
-- What an answer keeps of the messages it shows (internal/delivery/http/helpers.go).
use chatter_stack.Base.{◌≡◌, refl, ap, ◌∙◌, sym, List, [], ◌∷◌}
use chatter_stack.Models.{Attachment, Message}
use chatter_stack.Http.Payloads.{
  AttachmentPayload, MessagePayload, to_attachment_payloads, to_message_payload,
  to_message_payloads,
}

read_attachments : List AttachmentPayload → List Attachment
read_attachments [] = []
read_attachments (p ∷ ps) =
    record {
      id = p.id;
      message_id = p.message_id;
      url = p.url;
      mime_type = p.mime_type;
      size_bytes = p.size_bytes;
    }
    ∷ read_attachments ps

read_attachments_lem :
    (list : List Attachment) → read_attachments (to_attachment_payloads list) ≡ list
unfolding read_attachments to_attachment_payloads
read_attachments_lem [] = refl
read_attachments_lem (att ∷ list) = rw (read_attachments_lem list) refl

read_messages : List MessagePayload → List Message
unfolding read_attachments
read_messages [] = []
read_messages (p ∷ ps) =
    record {
      id = p.id;
      room_id = p.room_id;
      sender_id = p.sender_id;
      content = p.content;
      attachments = read_attachments p.attachments;
      status = p.status;
      created_at = p.created_at;
      updated_at = p.updated_at;
    }
    ∷ read_messages ps

read_messages_lem : (list : List Message) → read_messages (to_message_payloads list) ≡ list
unfolding read_messages to_message_payloads to_message_payload
read_messages_lem [] = refl
read_messages_lem (msg ∷ list) =
    rw (read_messages_lem list, read_attachments_lem msg.attachments) refl

-- Two lists of messages that are shown alike are the same list.
pub to_message_payloads_inj :
    (ms ns : List Message) → to_message_payloads ms ≡ to_message_payloads ns → ms ≡ ns
to_message_payloads_inj ms ns e =
    sym (read_messages_lem ms) ∙ ap read_messages e ∙ read_messages_lem ns
