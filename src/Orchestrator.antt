-- ===== src/Orchestrator.antt =====
-- internal/ai/orchestrator.go: the persona that takes part in the chat. Each child is about one part
-- of the file: the history, the words of a message, the score of a reply, the language model that is
-- asked for one, and the turns in which the persona speaks.
pub mod History
pub mod Words
pub mod Float
pub mod Score
pub mod Prompts
pub mod Ollama
pub mod Recall
pub mod Turns
