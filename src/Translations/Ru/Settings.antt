-- ===== src/Translations/Ru/Settings.antt =====
-- The Russian texts of the main page and the settings, lines 526 to 620 of frontend/src/i18n/translations.ts.
use lokinode.Translations.Table.{Table}
use mathlib.Core.List.{[], ◌∷◌}

unfoldable pub texts : Table
texts =
    ("main.title", "Настройка узла")
    ∷ ("main.data_dir", "Среда узла")
    ∷ ("main.starting", "Запуск узла…")
    ∷ ("main.start", "Запустить узел")
    ∷ ("main.select_dir_title", "Найти среду узла")
    ∷ ("main.loading_default", "Загрузка среды узла по умолчанию...")
    ∷ ("main.existing.badge", "Найден существующий узел")
    ∷ (
      "main.existing.desc",
      "В этом месте обнаружена среда узла Flokicoin. Вы можете запустить ее напрямую.",
    )
    ∷ ("main.existing.start", "Нажмите для запуска")
    ∷ ("main.configure", "Настроить узел")
    ∷ ("main.errors.alias", "Требуется псевдоним узла")
    ∷ ("main.errors.alias_invalid", "Недопустимый псевдоним")
    ∷ ("main.errors.start_failed", "Ошибка запуска")
    ∷ ("main.errors.config_error", "Ошибка конфигурации")
    ∷ ("main.errors.node_error", "Ошибка узла")
    ∷ ("main.errors.not_a_node", "В этом месте не найдена существующая среда узла")
    ∷ ("main.errors.dir_error", "Ошибка выбора среды узла")
    ∷ ("main.default_alias", "MyLokinode")
    ∷ ("config.alias_default_hint", "Will use default name")
    ∷ ("main.create_new", "Создать новый узел")
    ∷ ("main.create_new_sub", "Инициализировать новую среду.")
    ∷ ("main.open_existing", "Открыть существующий узел")
    ∷ ("main.open_existing_sub", "Возобновить работу из существующей среды узла.")
    ∷ ("main.browse_folder", "Выбрать папку")
    ∷ ("main.status.offline", "Узел офлайн")
    ∷ ("main.status.starting", "Запуск")
    ∷ ("main.power_hint", "Нажмите для запуска")
    ∷ ("main.power_hint_starting", "Инициализация…")
    ∷ ("config.alias", "Псевдоним узла")
    ∷ ("config.alias_ph", "напр. МойУзел")
    ∷ ("config.network", "Сетевые настройки")
    ∷ ("config.rest_cors", "REST CORS")
    ∷ ("config.rpc_listen", "RPC прослушивание")
    ∷ ("config.rest_listen", "REST прослушивание")
    ∷ ("network.restart_btn", "Перезапустить узел")
    ∷ ("network.restarting", "Перезапуск...")
    ∷ ("network.restart.confirm", "Подтвердить перезагрузку?")
    ∷ ("network.restart.confirm_action", "Нажмите еще раз для подтверждения")
    ∷ ("network.restart_sub", "Your node will be back online in a few seconds.")
    ∷ ("network.errors.invalid_config", "Configuration Issue")
    ∷ ("settings.title", "Настройки")
    ∷ ("security.title", "Безопасность")
    ∷ ("security.section", "Изменить пароль кошелька")
    ∷ ("security.current_pwd", "Текущий пароль")
    ∷ ("security.new_pwd", "Новый пароль")
    ∷ ("security.new_pwd_ph", "Мин. 8 символов")
    ∷ ("security.confirm_pwd", "Подтвердить пароль")
    ∷ ("security.update", "Обновить пароль")
    ∷ ("security.updating", "Обновление…")
    ∷ ("security.update_sub", "Re-keying your wallet. This will take a moment.")
    ∷ ("security.updated", "Пароль изменен")
    ∷ ("security.updated_ok", "Пароль успешно обновлён")
    ∷ ("security.failed", "Ошибка")
    ∷ (
      "security.stop_prompt",
      "Для обновления пароля необходимо остановить узел. Остановить сейчас?",
    )
    ∷ ("security.update_failed", "Обновление не удалось")
    ∷ ("security.error.timeout", "Время ожидания блокировки узла истекло")
    ∷ ("validation.required", "Обязательно")
    ∷ ("validation.min8", "Мин. 8 символов")
    ∷ ("validation.no_match", "Не совпадает")
    ∷ ("validation.dir_required", "Требуется расположение среды")
    ∷ ("validation.dir_not_empty", "Среда должна быть пустой или новой")
    ∷ ("validation.invalid_cors", "Неверный формат URL")
    ∷ ("validation.invalid_listen", "Неверный формат (напр. 0.0.0.0:10005)")
    ∷ ("network.public_node", "Публичный узел")
    ∷ ("network.public_node_sub", "Принимать входящие P2P-соединения и объявлять себя в сети")
    ∷ ("network.restart_hint", "Применится после перезапуска")
    ∷ (
      "network.restart_required",
      "Узел запущен с устаревшими настройками сети. Перезапустите для применения.",
    )
    ∷ ("network.public_ip", "Публичный IP-адрес")
    ∷ ("network.public_ip_sub", "Ваш IP, объявляемый пирам. Порт 5521 используется по умолчанию.")
    ∷ ("network.public_ip_ph", "напр. 203.0.113.42 или 203.0.113.42:5521")
    ∷ ("network.ip_error", "Неверный IP-адрес")
    ∷ ("network.ip_missing", "IP не задан — узел будет слушать, но не объявит себя")
    ∷ ("network.group.identity", "Идентификатор узла")
    ∷ ("network.group.visibility", "Публичная видимость")
    ∷ ("network.group.endpoints", "Эндпоинты и CORS")
    ∷ ("network.group.credentials", "Учётные данные")
    ∷ ("network.cors", "Источник CORS для REST")
    ∷ (
      "network.cors_sub",
      "Разрешённый браузерный источник для REST API. Оставьте пустым, чтобы отключить CORS.",
    )
    ∷ ("network.cors_ph", "напр. http://localhost:3000")
    ∷ ("network.pubkey", "Pubkey узла")
    ∷ ("network.grpc", "gRPC")
    ∷ ("network.rest", "REST")
    ∷ ("network.data_dir", "Среда узла")
    ∷ ("network.macaroon", "Macaroon администратора")
    ∷ ("network.tls", "TLS-сертификат")
    ∷ ("network.hex_locked", "Доступно после разблокировки")
    ∷ ("receive.title", "Получить FLC")
    ∷ ("receive.new_addr", "Сгенерировать новый адрес")
    ∷ ("receive.copied", "Скопировано")
    ∷ ("receive.copy_desc", "Адрес скопирован")
    ∷ ("receive.payment_received", "Платеж получен")
    ∷ ("receive.addr_type", "Тип адреса")
    ∷ ("receive.segwit", "SegWit")
    ∷ ("receive.taproot", "Taproot")
    ∷ []
