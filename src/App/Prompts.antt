-- ===== src/App/Prompts.antt =====
-- The JSON texts that get_best_image_index and generate_caption send. Neither the image nor the
-- information is escaped in them.
use dinner_is_servered.Prelude.{List, [], ◌∷◌, ◌++◌, Bytes, text}

-- The lines of a raw string.
unfoldable pub lines : List Bytes → Bytes
lines [] = []
lines (line ∷ []) = line
lines (line ∷ (next ∷ more)) = line ++ (b'\n' ∷ lines (next ∷ more))

-- the JSON text in front of the image, and behind it
abbrev pub score_json_front : Bytes
score_json_front = lines (
    text ""
    ∷ text "            {"
    ∷ text "                \"model\": \"gpt-4-turbo\","
    ∷ text "                \"messages\": ["
    ∷ text "                    {"
    ∷ text "                        \"role\": \"user\","
    ∷ text "                        \"content\": ["
    ∷ text "                            {"
    ∷ text "                                \"type\": \"text\","
    ∷ text
        "                                \"text\": \"On a scale of 0-100 with 0 being the worst and 100 being the best, please score this image on how good it is to be posted on Instagram. Respond only with an integer.\""
    ∷ text "                            },"
    ∷ text "                            {"
    ∷ text "                                \"type\": \"image_url\","
    ∷ text "                                \"image_url\": {"
    ∷ text "                                    \"url\": \""
    ∷ [])

abbrev pub score_json_back : Bytes
score_json_back = lines (
    text "\""
    ∷ text "                                }"
    ∷ text "                            }"
    ∷ text "                        ]"
    ∷ text "                    }"
    ∷ text "                ],"
    ∷ text "                \"max_tokens\": 300"
    ∷ text "            }"
    ∷ text "            "
    ∷ [])

-- `jsonData` in get_best_image_index
unfoldable pub score_json : Bytes → Bytes
score_json image = score_json_front ++ (image ++ score_json_back)

-- the JSON text in front of the information, between it and the image, and behind the image
abbrev pub caption_json_front : Bytes
caption_json_front = lines (
    text ""
    ∷ text "        {"
    ∷ text "            \"model\": \"gpt-4-turbo\","
    ∷ text "            \"messages\": ["
    ∷ text "                {"
    ∷ text "                    \"role\": \"user\","
    ∷ text "                    \"content\": ["
    ∷ text "                        {"
    ∷ text "                            \"type\": \"text\","
    ∷ text
        "                            \"text\": \"Given the following image and relevant information, please generate an Instagram caption. Relevant information: "
    ∷ [])

abbrev pub caption_json_middle : Bytes
caption_json_middle = lines (
    text "\""
    ∷ text "                        },"
    ∷ text "                        {"
    ∷ text "                            \"type\": \"image_url\","
    ∷ text "                            \"image_url\": {"
    ∷ text "                                \"url\": \""
    ∷ [])

abbrev pub caption_json_back : Bytes
caption_json_back = lines (
    text "\""
    ∷ text "                            }"
    ∷ text "                        }"
    ∷ text "                    ]"
    ∷ text "                }"
    ∷ text "            ],"
    ∷ text "            \"max_tokens\": 300"
    ∷ text "        }"
    ∷ text "        "
    ∷ [])

-- `jsonData` in generate_caption
unfoldable pub caption_json : Bytes → Bytes → Bytes
caption_json relevant_info image =
    caption_json_front ++ (relevant_info ++ (caption_json_middle ++ (image ++ caption_json_back)))
