-- ===== src/Orchestrator/Prompts.antt =====
-- internal/ai/orchestrator.go: the texts that a persona's language model is given.
use distributed_multi_agent.Base.{
  List, [], ◌∷◌, ◌++◌, Bool, Option, none, some, if◌then◌else◌, Bytes, bytes, utf8, utf8_char,
}
use distributed_multi_agent.Batcher.{ChatMessage}
use distributed_multi_agent.Orchestrator.Score.{Persona}
use distributed_multi_agent.Validate.{eqb}
use mathlib.Core.List.{reverse}

-- `history[len(history)-1]`, where there is one.
unfoldable pub latest_of : List ChatMessage → Option ChatMessage
latest_of history = elim (reverse history) [ [] ↦ none | m ∷ ms ↦ some m ]

-- The loop that writes a line for each message; `mark` is what follows a sender's name.
unfoldable pub chat_lines : (Bytes → Bytes) → List ChatMessage → Bytes
chat_lines mark [] = []
chat_lines mark (m ∷ ms) =
    m.sender_name
    ++ (mark m.sender_name ++ (bytes ": " ++ (m.content ++ (bytes "\n" ++ chat_lines mark ms))))

unfoldable pub silence_rule : Bool → Bytes
silence_rule mentioned =
    if mentioned
    then utf8 "Someone just addressed you by name. You MUST reply — NEVER output [SILENCE]."
    else bytes
        "If the last message is clearly a private exchange between two OTHER named people and does not involve you at all, output exactly: [SILENCE]\nOtherwise, reply normally."

-- The rules of the prompt after the line that names the persona.
abbrev pub chat_rules : Bytes
chat_rules =
    bytes
      "- Lines marked \"(you)\" are your OWN previous messages. Never repeat or paraphrase them.\n"
    ++ (utf8
          "- Other participants may be humans or other personas — treat them all like real friends. You can and should mention them by name.\n"
        ++ (bytes "- Reply in 1-2 short sentences, casual and natural, like a real text message.\n"
            ++ (bytes
                  "- Actually answer the latest message. Do not dodge, do not change the topic, and do not output random single words.\n"
                ++ (bytes
                      "- If someone asks you to repeat a sentence or provide exact text, output that text plainly and accurately.\n"
                    ++ (bytes
                          "- If someone asks you to make a move, guess, choose an option, or follow a constraint, do that concrete action directly. Do not merely agree to do it, and do not ignore explicit ranges, options, or limits.\n"
                        ++ (bytes
                              "- Avoid bland filler like \"yeah\", \"sure\", or \"hey\" by themselves unless the latest message is only a greeting.\n"
                            ++ bytes
                                "- If you do not understand, ask one brief clarification question instead of hallucinating.\n"))))))

unfoldable pub build_chat_prompt : Persona → Bool → Bytes
build_chat_prompt p mentioned =
    bytes "You are "
    ++ (p.name
        ++ (utf8
              ", a real person chatting in a group chat. You are NOT an AI — never admit or hint that you are artificial.\n\nPersonality / backstory: "
            ++ (p.style
                ++ (bytes "\n\nGroup-chat rules:\n- Your name is "
                    ++ (p.name
                        ++ (bytes ". Only messages addressed to \""
                            ++ (p.name
                                ++ (bytes "\" or the whole group are for you.\n"
                                    ++ (chat_rules
                                        ++ (bytes
                                              "- Do NOT prefix your reply with your own name or \""
                                            ++ (p.name
                                                ++ (bytes
                                                      ":\". Just write the message.\n- You may use @Name to directly ask another participant something.\n- Use @all VERY rarely. Only use it for a true whole-group question, never in back-to-back turns.\n- Do NOT include stage directions, brackets, asterisks, or meta commentary.\n\n"
                                                    ++ silence_rule mentioned))))))))))))

unfoldable pub build_user_prompt : List ChatMessage → Bytes → Bool → Bytes
build_user_prompt history self_name mentioned =
    bytes "Recent chat:\n"
    ++ (chat_lines (λ name. if eqb name self_name then bytes " (you)" else []) history
        ++ (bytes "\n"
            ++ (elim (latest_of history) [
              | none ↦ []
              | some latest ↦
                  bytes "Latest message to react to:\n"
                  ++ (latest.sender_name ++ (bytes ": " ++ (latest.content ++ bytes "\n\n")))
            ]
                ++ ((if mentioned
                      then utf8 "⚠"
                        ++ (utf8_char 0xfe0f
                            ++ (utf8 " Someone just said your name ("
                                ++ (self_name ++ utf8 ") — you MUST reply.\n")))
                      else [])
                    ++ (bytes "Now write "
                        ++ (self_name
                            ++ bytes
                                "'s next message. One short useful reply only, no name prefix."))))))

abbrev pub calibration_rules : Bytes
calibration_rules =
    bytes
      "You are a strict chat-response validator.\nTask: evaluate whether the candidate reply directly satisfies the latest user request.\nFocus on instruction-following and relevance:\n- The reply must address the latest message, not generic agreement.\n- If the latest message includes explicit constraints (range, option, format, limit), the reply should follow them.\n- Keep revised reply concise and natural.\nReturn ONLY valid JSON:\n{\"ok\":true|false,\"reason\":\"short reason\",\"revised_reply\":\"only when ok=false\"}"

unfoldable pub build_calibration_prompts :
    Bytes → List ChatMessage → ChatMessage → Bytes → Bytes × Bytes
build_calibration_prompts self_name recent latest draft = (
  calibration_rules,
  bytes "Recent chat:\n"
      ++ (chat_lines (λ name. []) recent
          ++ (bytes "\nPersona name: "
              ++ (self_name
                  ++ (bytes "\nLatest message:\n"
                      ++ (latest.sender_name
                          ++ (bytes ": "
                              ++ (latest.content
                                  ++ (bytes "\n\nCandidate reply:\n"
                                      ++ (draft ++ bytes "\n"))))))))),
)

-- The system prompt of `extractMemories`.
abbrev pub memory_rules : Bytes
memory_rules =
    utf8
      "You are a memory extraction assistant. Extract ONLY concrete, specific facts about people — things like their real name, age, location, hobbies, job, or relationships. Do NOT store opinions, guesses, conversation summaries, or vague observations. Output 0-2 facts, each on its own line starting with \"- \". If nothing concrete is worth remembering, output exactly: NONE"

unfoldable pub memory_prompt : List ChatMessage → Bytes → Bytes
memory_prompt history ai_response =
    chat_lines (λ name. []) history ++ (bytes "[AI replied]: " ++ (ai_response ++ bytes "\n"))
