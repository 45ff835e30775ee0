-- ===== src/Usecase/MessageUseCase.antt =====
-- internal/usecase/message_usecase.go.
use chatter_stack.Base.{String, List, ℤ}
use chatter_stack.Exec.{Exec}
use chatter_stack.Models.{Message}
use chatter_stack.Messages
use chatter_stack.Messages.{Service, SendMessageInput}

abbrev pub send : {W : Type 0} → Service W → SendMessageInput → Exec W Message
send uc = Messages.send uc

abbrev pub list_by_room : {W : Type 0} → Service W → String → ℤ → ℤ → Exec W (List Message)
list_by_room uc = Messages.list_by_room uc

abbrev pub list_around : {W : Type 0} → Service W → String → String → ℤ → Exec W (List Message)
list_around uc = Messages.list_around uc

abbrev pub mark_delivered : {W : Type 0} → Service W → String → String → Exec W (Unit {0})
mark_delivered uc = Messages.mark_delivered uc

abbrev pub mark_read : {W : Type 0} → Service W → String → String → Exec W (Unit {0})
mark_read uc = Messages.mark_read uc

abbrev pub search : {W : Type 0} → Service W → String → String → String → ℤ → Exec W (List Message)
search uc = Messages.search uc

abbrev pub edit : {W : Type 0} → Service W → String → String → String → Exec W Message
edit uc = Messages.edit uc

abbrev pub delete : {W : Type 0} → Service W → String → String → Exec W Message
delete uc = Messages.delete uc
